-- ===== src/Plugins/TokenValidator/Init/Bounds.antt =====
-- What an accepted configuration guarantees.
use Prim.Native.Nat.{ℕ, ◌*◌, ◌<◌, ◌≤◌}
use yaagents_gateway.Prelude.{String, Bool, true, false, [], ◌≡◌, ◌≢◌, ap, ◌⊎◌, arith, All}
use yaagents_gateway.Prelude.Int.{to_ℕ}
use yaagents_gateway.Prelude.Text.{equal_fold}
use yaagents_gateway.Prelude.Result.{ok}
use yaagents_gateway.Plugin.MapConfig.{MapConfig, get_string_slice, get_int}
use yaagents_gateway.Jwks.{Jwks}
use yaagents_gateway.Plugins.TokenValidator.Config.{Settings}
use yaagents_gateway.Plugins.TokenValidator.Init.{settings_of, init_v2}
use yaagents_gateway.Plugins.TokenValidator.Init.Fields.{skew_of, max_bytes_of}
use yaagents_gateway.Plugins.TokenValidator.Init.Parts.{init_v2-Parts}
use yaagents_gateway.Plugins.TokenValidator.Init.Steps.{
  IsWithin, in_range-IsWithin, or_default-ne-nil, allowed_algorithms_lem, propagation_lem,
  token_fields_lem, key_sources_lem,
}

-- A configuration that initV2 accepts gives: a clock skew of 1 to 600 seconds; a size cap of 1 to 65536
-- bytes; a list of algorithms that is not empty and without "none", in any letter case; a name for the
-- token header; required claims; the propagation of all claims or of a list of them that is not empty;
-- and a secret in the test mode, a pool of issuers otherwise.
pub init_v2_bounds :
    (is_uri : String → Bool) (cfg : MapConfig) (c : Settings) (validators : ℕ → Jwks)
    → init_v2 is_uri cfg ≡ ok (c, validators)
    → ((n : ℕ) × (c.clock_skew ≡ n * 1000000000) × (0 < n) × (n ≤ 600))
      × IsWithin 65536 c.max_token_bytes
      × (c.algorithms ≢ [])
      × All (λ a. equal_fold a "none" ≡ false) c.algorithms
      × (c.token_header ≢ "")
      × (c.required_claims ≢ [])
      × ((c.propagate_mode ≡ "all")
          ⊎ ((c.propagate_mode ≡ "allowlist") × (c.propagate_claims ≢ [])))
      × (c.test_mode ≡ true → c.hs256_key ≢ "")
      × (c.test_mode ≡ false → c.issuers_pool ≢ [])
unfolding settings_of skew_of max_bytes_of
init_v2_bounds is_uri cfg c validators fine =
    let (
      sources, algs, skew, prop, token, max, sourced, allowed, skewed, propagated, named, capped,
      same, placed,
    ) =
      init_v2-Parts is_uri cfg c validators fine in
    let (k, is, low, high) =
      in_range-IsWithin (get_int cfg "clock_skew_seconds") 60 600 _ skew (omega arith) (omega arith)
        skewed in
    let (keyed, pooled) = key_sources_lem is_uri cfg sources sourced in
    rw (← same) (
      (k, ap (λ n. to_ℕ n * 1000000000) is, low, high),
      in_range-IsWithin (get_int cfg "max_token_bytes") 8192 65536 _ max (omega arith) (omega arith)
          capped,
      (allowed_algorithms_lem cfg algs allowed).0,
      (allowed_algorithms_lem cfg algs allowed).1,
      token_fields_lem _ token.0 token.1 named,
      or_default-ne-nil (get_string_slice cfg "required_claims") "sub" [],
      propagation_lem _ prop.0 prop.1 propagated,
      λ on. rw on (keyed on),
      λ off. pooled off,
    )
