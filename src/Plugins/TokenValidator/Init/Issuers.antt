-- ===== src/Plugins/TokenValidator/Init/Issuers.antt =====
-- `Init` of the token validator: its errors, and where its keys come from.
use Prim.Native.Nat.{ℕ, ◌+◌}
use yaagents_gateway.Prelude.{
  String, Bool, true, false, not, List, [], ◌∷◌, Option, none, some, if◌then◌else◌, ◌==◌,
}
use yaagents_gateway.Prelude.Int.{ℤ, pos, is_nonpos, seconds}
use yaagents_gateway.Prelude.Maps.{lookup}
use yaagents_gateway.Prelude.Result.{Result, ok, err, ◌>>=◌, ◌>>◌, fail_if}
use yaagents_gateway.Value.{Value, int, int64, float64, list, Object, elems, as_object, str_at}
use yaagents_gateway.Plugin.MapConfig.{MapConfig, get_bool, get_string, get_int, raw_values}
use yaagents_gateway.Jwks.{Jwks, new_jwks}
use yaagents_gateway.Plugins.TokenValidator.Config.{IssuerEntry}

pub data InitError : Type 0 where
  cannot_be_disabled no_secret no_strategy : InitError
  issuers_no_list issuer_no_map no_jwks_url no_issuers empty_issuer bad_jwks_url : InitError
  none_forbidden bad_skew bad_mode no_claims_list no_token_header bad_size : InitError

-- `issuerCfg`
pub record IssuerCfg : Type 0 where
  pub issuer : String
  pub jwks_url : String
  pub ttl : ℤ

abbrev ttl_or_default : Option Value → ℤ
ttl_or_default (some (int n)) = n
ttl_or_default (some (int64 n)) = n
ttl_or_default (some (float64 n)) = n
ttl_or_default _ = pos 600

-- One round of the loop of `parseIssuers`.
unfoldable pub parse_issuer : Value → Result InitError IssuerCfg
parse_issuer item = elim (as_object (some item)) [
  | none ↦ err issuer_no_map
  | some m ↦ (do
    fail_if (str_at "jwks_url" m == "") no_jwks_url
    ok (record {
      issuer = str_at "issuer" m;
      jwks_url = str_at "jwks_url" m;
      ttl = ttl_or_default (lookup "jwks_cache_ttl_seconds" m);
    }))
]

unfoldable pub parse_each : List Value → Result InitError (List IssuerCfg)
unfolding parse_issuer
parse_each [] = ok []
parse_each (item ∷ items) = do i ← parse_issuer item; rest ← parse_each items; ok (i ∷ rest)

-- `parseIssuers`
unfoldable pub parse_issuers : Object → Result InitError (List IssuerCfg)
unfolding parse_each
parse_issuers raw = elim (lookup "issuers" raw) [
  | none ↦ ok []
  | some (list vs) ↦ parse_each (elems vs)
  | some _ ↦ err issuers_no_list
]

-- The validator of the key jwks_url.
abbrev pub single_validator : MapConfig → Jwks
single_validator cfg =
    let ttl = get_int cfg "cache_ttl_seconds" in
    new_jwks (get_string cfg "jwks_url") (seconds (if is_nonpos ttl then pos 600 else ttl))

-- Where the keys come from: the pool, its validators, and whether the v1 form is promoted.
pub record KeySources : Type 0 where
  pub pool : List IssuerEntry
  pub made : List Jwks
  pub v1_shim : Bool

-- The loop over the issuers, from the number of the next validator.
unfoldable pub build_pool : (String → Bool) → ℕ → List IssuerCfg → Result InitError KeySources
build_pool is_uri n [] = ok (record { pool = []; made = []; v1_shim = false })
build_pool is_uri n (ic ∷ ics) = do
  fail_if (ic.issuer == "") empty_issuer
  fail_if (not (is_uri ic.jwks_url)) bad_jwks_url
  rest ← build_pool is_uri (n + 1) ics
  ok (record {
    pool = record { issuer = ic.issuer; validator = n } ∷ rest.pool;
    made = new_jwks ic.jwks_url (seconds ic.ttl) ∷ rest.made;
    v1_shim = false;
  })

abbrev pub sources_of : (String → Bool) → MapConfig → List IssuerCfg → Result InitError KeySources
sources_of is_uri cfg [] = do
  fail_if (get_string cfg "jwks_url" == "") no_issuers
  ok (record {
    pool = record { issuer = ""; validator = 0 } ∷ [];
    made = single_validator cfg ∷ [];
    v1_shim = true;
  })
sources_of is_uri cfg (ic ∷ ics) = build_pool is_uri 0 (ic ∷ ics)

-- Step (1).
unfoldable pub key_sources : (String → Bool) → MapConfig → Result InitError KeySources
unfolding build_pool parse_issuers
key_sources is_uri cfg =
    if get_bool cfg "test_mode"
    then (do
      fail_if (get_string cfg "jwt_secret" == "") no_secret
      ok (record { pool = []; made = []; v1_shim = false }))
    else (do issuers ← parse_issuers (raw_values cfg); sources_of is_uri cfg issuers)
