-- ===== src/Jwks/Laws.antt =====
-- When the key store asks its endpoint, and what it serves.
use Prim.Native.Nat.{◌+◌, ◌≤◌}
use yaagents_gateway.Prelude.{
  String, Bool, true, false, List, [], ◌∷◌, none, some, ◌≡◌, ◌≢◌, refl, ap, ◌∙◌, inl, inr, ◌↔◌,
  arith, ltb, Bool-cases, Option-cases, if◌then◌else◌,
}
use yaagents_gateway.Prelude.Int.{moved}
use yaagents_gateway.Prelude.Maps.{lookup}
use yaagents_gateway.Prelude.Result.{Result, ok, err}
use yaagents_gateway.Jwks.{
  Jwks, KeyServer, KeyError, RefreshError, PublicKey, unavailable, not_in_stale_set, published,
  refresh, is_expired, stale_key, key_or_none, get_key, get_key_slow, after_refresh,
}

lookup-nil {ℓ} :
    {V : Type ℓ} (kid : String) (keys : List (String × V)) (value : V)
    → keys ≡ []
    → lookup kid keys ≡ some value
    → ⊥
unfolding lookup
lookup-nil kid [] value empty found = cc
lookup-nil kid (k ∷ ks) value empty found = cc

-- What a store with these keys answers while the endpoint is out.
abbrev pub Outage : String → List (String × PublicKey) → Result KeyError PublicKey → Type 0
Outage kid keys answer =
    ((key : PublicKey) → lookup kid keys ≡ some key → answer ≡ ok key)
    × ((answer ≡ err unavailable) ↔ (keys ≡ []))
    × (lookup kid keys ≡ none → keys ≢ [] → answer ≡ err not_in_stale_set)

stale_key-Outage :
    (kid : String) (keys : List (String × PublicKey)) → Outage kid keys (stale_key kid keys)
unfolding stale_key lookup
stale_key-Outage kid [] = (λ key found. cc, (λ e. refl, λ e. refl), λ absent ne. absurd (ne refl))
stale_key-Outage kid (k ∷ ks) = elim (Option-cases (lookup kid (k ∷ ks))) [
  | inl absent ↦ rw (absent, stale_key) (λ key found. cc, (λ e. cc, λ e. cc), λ none_there ne. refl)
  | inr (known, there) ↦
      rw (there, stale_key) (λ key found. cc, (λ e. cc, λ e. cc), λ none_there ne. cc)
]

module _ {X : Type 0} (d : KeyServer X) where
  refresh_failed :
      (v : Jwks) (x : X) (e : RefreshError)
      → published d (d.get v.url x).0 ≡ err e
      → refresh d v x ≡ (err e, record v { fetch_count = v.fetch_count + 1 }, (d.get v.url x).1)
  unfolding refresh
  refresh_failed v x e bad = rw (bad, refresh) refl

  refresh_done :
      (v : Jwks) (x : X) (keys : List (String × PublicKey))
      → published d (d.get v.url x).0 ≡ ok keys
      → refresh d v x ≡ (
        ok tt,
        record v {
          fetch_count = v.fetch_count + 1;
          keys = keys;
          fetch_at = some (d.now (d.get v.url x).1);
        },
        (d.get v.url x).1,
      )
  unfolding refresh
  refresh_done v x keys good = rw (good, refresh) refl

  -- The store cannot answer for the key id by itself.
  unfoldable pub needs_fetch : String → Jwks → X → Bool
  needs_fetch kid v x = elim (lookup kid v.keys) [ none ↦ true | some key ↦ is_expired d v x ]

  get_key-slow :
      (kid : String) (v : Jwks) (x : X)
      → needs_fetch kid v x ≡ true
      → get_key d kid v x ≡ get_key_slow d kid v x
  unfolding get_key needs_fetch
  get_key-slow kid v x slow = elim (Option-cases (lookup kid v.keys)) [
    | inl absent ↦ rw (absent, get_key) refl
    | inr (key, there) ↦
        (let expired = rw (there, needs_fetch) at slow in rw (there, expired, get_key) refl)
  ]

  pub get_key-fast :
      (kid : String) (v : Jwks) (x : X)
      → needs_fetch kid v x ≡ false
      → (key : PublicKey) × (lookup kid v.keys ≡ some key) × (get_key d kid v x ≡ (ok key, v, x))
  unfolding get_key needs_fetch
  get_key-fast kid v x fast = elim (Option-cases (lookup kid v.keys)) [
    | inl absent ↦ (let stopped = rw (absent, needs_fetch) at fast in absurd (cc stopped))
    | inr (key, there) ↦
        (let live = rw (there, needs_fetch) at fast in (key, there, rw (there, live, get_key) refl))
  ]

  pub get_key_failed :
      (kid : String) (v : Jwks) (x : X) (e : RefreshError)
      → published d (d.get v.url x).0 ≡ err e
      → needs_fetch kid v x ≡ true
      → get_key d kid v x
        ≡ (stale_key kid v.keys, record v { fetch_count = v.fetch_count + 1 }, (d.get v.url x).1)
  unfolding get_key_slow after_refresh
  get_key_failed kid v x e bad slow =
      get_key-slow kid v x slow ∙ ap (after_refresh kid) (refresh_failed v x e bad)

  pub get_key_done :
      (kid : String) (v : Jwks) (x : X) (keys : List (String × PublicKey))
      → published d (d.get v.url x).0 ≡ ok keys
      → needs_fetch kid v x ≡ true
      → get_key d kid v x ≡ (
        key_or_none (lookup kid keys),
        record v {
          fetch_count = v.fetch_count + 1;
          keys = keys;
          fetch_at = some (d.now (d.get v.url x).1);
        },
        (d.get v.url x).1,
      )
  unfolding get_key_slow after_refresh
  get_key_done kid v x keys good slow =
      get_key-slow kid v x slow ∙ ap (after_refresh kid) (refresh_done v x keys good)

  -- While the endpoint is out, its answer no key set or none: the keys that were fetched before stay
  -- and are served, also when they have expired; a key id that is not among them is an error, which is
  -- the one for an unavailable endpoint exactly if there are no keys at all. The store is changed only
  -- in its count of fetches, by at most one.
  pub get_key-Outage :
      (kid : String) (v : Jwks) (x : X) (e : RefreshError)
      → published d (d.get v.url x).0 ≡ err e
      → Outage kid v.keys (get_key d kid v x).0
        × ((get_key d kid v x).1
            ≡ record v { fetch_count = v.fetch_count + (if needs_fetch kid v x then 1 else 0) })
  get_key-Outage kid v x e bad = elim (Bool-cases (needs_fetch kid v x)) [
    | inl slow ↦ rw (get_key_failed kid v x e bad slow, slow) (stale_key-Outage kid v.keys, refl)
    | inr fast ↦
        (let (key, there, same) = get_key-fast kid v x fast in
          rw (same, fast)
            (
              (
                λ other found. ground (arith, found, there),
                (λ failed. cc, λ empty. absurd (lookup-nil kid v.keys key empty there)),
                λ absent ne. cc,
              ),
              ap (λ n. record v { fetch_count = n }) (omega arith),
            ))
  ]

  -- When the endpoint answers with a good key set: a store that cannot answer by itself fetches it
  -- once, answers from it, and then serves each of its keys without another fetch up to the expiry.
  pub get_key_recovers :
      (kid : String) (v : Jwks) (x : X) (keys : List (String × PublicKey))
      → published d (d.get v.url x).0 ≡ ok keys
      → needs_fetch kid v x ≡ true
      → ((get_key d kid v x).0 ≡ key_or_none (lookup kid keys))
        × ((get_key d kid v x).1.fetch_count ≡ v.fetch_count + 1)
        × ((other : String) (key : PublicKey) (later : X)
            → lookup other keys ≡ some key
            → d.now later ≤ moved (d.now (d.get v.url x).1) v.ttl
            → get_key d other (get_key d kid v x).1 later ≡ (ok key, (get_key d kid v x).1, later))
  unfolding get_key
  get_key_recovers kid v x keys good slow = rw (get_key_done kid v x keys good slow) (
    refl,
    refl,
    λ other key later found live.
        let early : ltb (moved (d.now (d.get v.url x).1) v.ttl) (d.now later) ≡ false =
          ground (arith, live) in
        rw (found, early, get_key) refl,
  )
