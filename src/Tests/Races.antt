-- ===== src/Tests/Races.antt =====
-- Two calls of getKey on one new key store, which interleave.
use Prim.Native.Nat.{ℕ}
use mathlib.Core.List.{Memᴰ}
use yaagents_gateway.Prelude.{[], ◌∷◌, some, refl}
use yaagents_gateway.Prelude.Int.{pos}
use yaagents_gateway.Prelude.Maps.{lookup, insert}
use yaagents_gateway.Prelude.Result.{ok}
use yaagents_gateway.Jwks.{new_jwks, published, load_keys, rsa_from_jwk}
use yaagents_gateway.Jwks.Genuine.{IsServed}
use yaagents_gateway.Jwks.Interleaving.{
  Caller, Shared, Phase, entered, fetching, rereading, fetched, served, advance, Reach, call, go,
  here, next,
}
use yaagents_gateway.Jwks.Interleaving.Genuine.{served-IsServed}
use yaagents_gateway.Tests.Tokens.{key_server}
use yaagents_gateway.Tests.Keys.{key, keys}

abbrev at_phase : Phase → Caller
at_phase p = record { kid = "k1"; phase = p }

-- The first call has put its keys into the store, the second is about to do so.
abbrev raced : Shared ℕ
raced = record {
  store = record (new_jwks "https://idp/jwks" (pos 10)) {
    keys = keys;
    fetch_at = some 100;
    fetch_count = 2;
  };
  outside = 100;
  callers = at_phase (fetched (ok keys)) ∷ at_phase (served (ok key)) ∷ [];
}

race :
    Reach key_server
      (record { store = new_jwks "https://idp/jwks" (pos 10); outside = 100; callers = [] })
      raced
unfolding advance lookup published load_keys rsa_from_jwk insert
race =
    next
      (next
        (next
          (next
            (next
              (next (next (next here (call "k1")) (call "k1"))
                (go [] (at_phase entered) (at_phase entered ∷ []) refl))
              (go (at_phase fetching ∷ []) (at_phase entered) [] refl))
            (go (at_phase fetching ∷ []) (at_phase fetching) [] refl))
          (go [] (at_phase fetching) (at_phase (fetched (ok keys)) ∷ []) refl))
        (go (at_phase (fetched (ok keys)) ∷ []) (at_phase (fetched (ok keys))) [] refl))
      (go (at_phase (fetched (ok keys)) ∷ []) (at_phase rereading) [] refl)

race_example : IsServed key_server "https://idp/jwks" "k1" key
race_example =
    served-IsServed key_server "https://idp/jwks" (pos 10) 100 raced (at_phase (served (ok key)))
      key race (Memᴰ.tail (Memᴰ.head refl)) refl
