-- ===== src/Plugins/TokenValidator/Verify.antt =====
-- internal/plugins/tokenvalidator/plugin.go: the steps of handleV2 up to the claims
-- that it accepts.
use Prim.Native.String
use yaagents_gateway.Prelude.{
  String, Bool, true, false, not, ◌&&◌, List, [], ◌∷◌, Option, none, some, contains, ltb,
  if◌then◌else◌, ◌==◌,
}
use yaagents_gateway.Prelude.Int.{to_ℕ, exceeds}
use yaagents_gateway.Prelude.Text.{cut_prefix, byte_size}
use yaagents_gateway.Prelude.Result.{Result, ok, err, ◌>>=◌, ◌>>◌, fail_if}
use yaagents_gateway.Value.{Object}
use yaagents_gateway.Http.Header
use yaagents_gateway.Http.Request.{Request}
use yaagents_gateway.Jwt.{ParseError, refused, malformed, no_key}
use yaagents_gateway.Jwks.{unavailable, not_in_stale_set, no_such_key}
use yaagents_gateway.Plugins.TokenValidator.Claims.{check_audiences, check_required_claims}
use yaagents_gateway.Plugins.TokenValidator.Config.{Settings}
use yaagents_gateway.Plugins.TokenValidator.Validators.{
  Provider, Store, NoKey, unexpected_method, key_error, find_validator, peek_algorithm, peek_issuer,
  validate_with, validate_hs256_v2,
}

-- `extractBearer`
unfoldable pub extract_bearer : Request → Option String
extract_bearer r = elim (cut_prefix (Header.get r.header "Authorization") "Bearer ") [
  | none ↦ none
  | some after ↦ if after == "" then none else some after
]

-- `extractTokenV2`
unfoldable pub extract_token_v2 : Settings → Request → Option String
extract_token_v2 c r =
    let value = Header.get r.header c.token_header in
    if value == ""
    then none
    else if c.token_scheme == ""
    then some value
    else (elim (cut_prefix value (String.◌++◌ c.token_scheme " ")) [
      | none ↦ none
      | some after ↦ if after == "" then none else some after
    ])

-- Why handleV2 refuses a request.
pub data Refusal : Type 0 where
  absent oversized undecodable : Refusal
  disallowed : String → Refusal
  issuer_unknown : String → Refusal
  keys_unavailable token_expired token_not_yet_valid invalid wrong_audience : Refusal
  claim_missing : String → Refusal

-- What handleV2 makes of an error of the validation.
unfoldable pub why_invalid : ParseError NoKey → Refusal
why_invalid (no_key (key_error unavailable)) = keys_unavailable
why_invalid (no_key (key_error not_in_stale_set)) = invalid
why_invalid (no_key (key_error no_such_key)) = invalid
why_invalid (no_key unexpected_method) = invalid
why_invalid malformed = invalid
why_invalid (refused e) =
    if e.is_expired
    then token_expired
    else if e.is_not_valid_yet
    then token_not_yet_valid
    else invalid

abbrev pub or_refuse {ℓ} : {A : Type ℓ} → Refusal → Option A → Result Refusal A
or_refuse e none = err e
or_refuse e (some a) = ok a

abbrev pub valid_or_refuse : Result (ParseError NoKey) Object → Result Refusal Object
valid_or_refuse (ok mc) = ok mc
valid_or_refuse (err e) = err (why_invalid e)

abbrev pub has_any : List String → Bool
has_any [] = false
has_any (x ∷ xs) = true

-- The checks of audience and required claims.
unfoldable pub check_claims : Settings → Object → Result Refusal Object
check_claims c mc = do
  fail_if (has_any c.audiences && not (check_audiences mc c.audiences)) wrong_audience
  fail_if (not (check_required_claims mc c.required_claims == ""))
      (claim_missing (check_required_claims mc c.required_claims))
  ok mc

module _ {X : Type 0} (d : Provider X) (c : Settings) where
  -- The algorithm allowlist.
  unfoldable pub check_algorithm : String → Result Refusal (Unit {0})
  check_algorithm token = if c.test_mode then ok tt else (do
    fail_if (peek_algorithm d token == "") undecodable
    fail_if (not (contains c.algorithms (peek_algorithm d token)))
        (disallowed (peek_algorithm d token))
    ok tt)

  -- handleV2 up to the parsing of the token.
  unfoldable pub pre_check : Request → Result Refusal String
  unfolding check_algorithm
  pre_check r = do
    token ← or_refuse absent (extract_token_v2 c r)
    fail_if (exceeds c.max_token_bytes 0 && ltb (to_ℕ c.max_token_bytes) (byte_size token))
        oversized
    _ ← check_algorithm token
    ok token

  -- The validation of the token.
  unfoldable pub authenticate : String → Store X → Result Refusal Object × Store X
  unfolding why_invalid validate_with validate_hs256_v2
  authenticate token s =
      if c.test_mode
      then (let (result, s') = validate_hs256_v2 d token c.hs256_key c.clock_skew s in
          (valid_or_refuse result, s'))
      else (elim (find_validator c.issuers_pool (peek_issuer d token)) [
        | none ↦ (err (issuer_unknown (peek_issuer d token)), s)
        | some ref ↦
            (let (result, s') = validate_with d ref token c.algorithms c.clock_skew s in
              (valid_or_refuse result, s'))
      ])

  -- The claims that handleV2 accepts, or why it refuses.
  unfoldable pub verified_claims : Request → Store X → Result Refusal Object × Store X
  unfolding pre_check authenticate check_claims
  verified_claims r s = elim (pre_check r) [
    | err e ↦ (err e, s)
    | ok token ↦
        (let (result, s') = authenticate token s in (result >>= (λ mc. check_claims c mc), s'))
  ]
