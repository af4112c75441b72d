-- ===== src/Plugins/TokenValidator/Init.antt =====
-- `Init` of the token validator, for both forms of its configuration: the checks in the order of the
-- source, then the settings. The fields that a failed Init has set are left out, since the loader
-- then ends the boot. Durations do not reach the bounds of int64.
pub mod Issuers
pub mod Fields
pub mod Steps
pub mod Parts
pub mod Bounds
pub mod Pool
use Prim.Native.Nat.{ℕ, zero, suc, ◌+◌, ◌*◌}
use yaagents_gateway.Prelude.{
  String, Bool, true, false, not, ◌&&◌, ◌||◌, List, [], ◌∷◌, Option, none, some, any, if◌then◌else◌,
  ◌==◌,
}
use yaagents_gateway.Prelude.Int.{ℤ, pos, is_nonpos, is_neg, is_zero, exceeds, to_ℕ, seconds}
use yaagents_gateway.Prelude.Text.{equal_fold}
use yaagents_gateway.Prelude.Maps.{lookup}
use yaagents_gateway.Prelude.Result.{Result, ok, err, ◌>>=◌, ◌>>◌, fail_if}
use yaagents_gateway.Value.{
  Value, null, str, strs, int, int64, float64, list, object, Object, elems, entries, as_str,
  as_object, str_at, all_texts,
}
use yaagents_gateway.Plugin.MapConfig.{
  MapConfig, get_bool, get_string, get_string_slice, get_int, raw_values,
}
use yaagents_gateway.Jwks.{Jwks, new_jwks}
use yaagents_gateway.Plugins.TokenValidator.Config.{Settings, FailureCodes, IssuerEntry}
use yaagents_gateway.Plugins.TokenValidator.Init.Issuers.{
  InitError, cannot_be_disabled, no_secret, no_strategy, KeySources, single_validator, key_sources,
}
use yaagents_gateway.Plugins.TokenValidator.Init.Fields.{
  or_default, allowed_algorithms, audiences_of, skew_of, propagation, token_fields, max_bytes_of,
  failure_codes_of,
}

-- `isV2Config`
unfoldable pub is_v2_config : Object → Bool
is_v2_config raw =
    any (λ k. elim (lookup k raw) [ none ↦ false | some v ↦ true ])
      ("issuers" ∷ "audiences" ∷ "algorithms" ∷ "clock_skew_seconds" ∷ "required_claims"
        ∷ "propagate_claims" ∷ "token" ∷ "on_failure" ∷ "max_token_bytes" ∷ [])

-- The validators that Init makes, under the numbers that the settings refer to them by.
unfoldable pub allocate : List Jwks → ℕ → Jwks
allocate [] i = new_jwks "" (pos 0)
allocate (v ∷ vs) zero = v
allocate (v ∷ vs) (suc i) = allocate vs i

-- The plugin before Init.
abbrev zero_settings : Settings
zero_settings = record {
  test_mode = false;
  hs256_key = "";
  jwks_val = 0;
  audience = "";
  v2_mode = false;
  issuers_pool = [];
  algorithms = [];
  audiences = [];
  clock_skew = 0;
  required_claims = [];
  propagate_mode = "";
  propagate_claims = [];
  token_header = "";
  token_scheme = "";
  on_failure = record {
    missing_token = pos 0;
    invalid_signature = pos 0;
    expired = pos 0;
    not_yet_valid = pos 0;
    unknown_issuer = pos 0;
    audience_mismatch = pos 0;
    required_claim_missing = pos 0;
    disallowed_algorithm = pos 0;
    oversized_token = pos 0;
    jwks_unavailable = pos 0;
  };
  max_token_bytes = pos 0;
}

-- `initV1`
unfoldable pub init_v1 : MapConfig → Result InitError (Settings × (ℕ → Jwks))
init_v1 cfg =
    if get_bool cfg "test_mode"
    then (do
      fail_if (get_string cfg "jwt_secret" == "") no_secret
      ok (
        record zero_settings {
          test_mode = true;
          hs256_key = get_string cfg "jwt_secret";
          audience = get_string cfg "audience";
        },
        allocate [],
      ))
    else if get_string cfg "jwks_url" == ""
    then err no_strategy
    else ok (
      record zero_settings { jwks_val = 0; audience = get_string cfg "audience" },
      allocate (single_validator cfg ∷ []),
    )

-- The fields that initV2 sets, from what its steps give.
unfoldable pub settings_of :
    MapConfig → KeySources → List String → ℤ → String × List String → String × String → ℤ → Settings
settings_of cfg sources algorithms skew propagate token max = record {
  test_mode = get_bool cfg "test_mode";
  hs256_key = if get_bool cfg "test_mode" then get_string cfg "jwt_secret" else "";
  jwks_val = 0;
  audience = "";
  v2_mode = true;
  issuers_pool = sources.pool;
  algorithms = algorithms;
  audiences = audiences_of cfg sources.v1_shim;
  clock_skew = to_ℕ skew * 1000000000;
  required_claims = or_default (get_string_slice cfg "required_claims") ("sub" ∷ []);
  propagate_mode = propagate.0;
  propagate_claims = propagate.1;
  token_header = token.0;
  token_scheme = token.1;
  on_failure = failure_codes_of cfg sources.v1_shim;
  max_token_bytes = max;
}

-- `initV2`
unfoldable pub init_v2 : (String → Bool) → MapConfig → Result InitError (Settings × (ℕ → Jwks))
unfolding key_sources allowed_algorithms audiences_of skew_of propagation token_fields max_bytes_of
    failure_codes_of settings_of
init_v2 is_uri cfg = do
  sources ← key_sources is_uri cfg
  algorithms ← allowed_algorithms cfg
  skew ← skew_of cfg
  propagate ← propagation (as_object (lookup "propagate_claims" (raw_values cfg)))
  token ← token_fields (as_object (lookup "token" (raw_values cfg)))
  max ← max_bytes_of cfg
  ok (settings_of cfg sources algorithms skew propagate token max, allocate sources.made)

-- `Init`, with the test of url.ParseRequestURI as a parameter: the settings and the validators that
-- they refer to.
unfoldable pub init : (String → Bool) → MapConfig → Result InitError (Settings × (ℕ → Jwks))
unfolding init_v1 init_v2 is_v2_config
init is_uri cfg = do
  fail_if (not (get_bool cfg "enabled")) cannot_be_disabled
  if is_v2_config (raw_values cfg) then init_v2 is_uri cfg else init_v1 cfg
