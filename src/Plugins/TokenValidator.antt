-- ===== src/Plugins/TokenValidator.antt =====
-- internal/plugins/tokenvalidator/plugin.go: who a request is from, by a signed token. Header values
-- are texts in UTF-8.
pub mod Config
pub mod Claims
pub mod Validators
pub mod Verify
pub mod Answers
pub mod Init
pub mod Trust
pub mod Selection
pub mod Admission
pub mod KeyFunctions
pub mod Signed
pub mod Statuses
pub mod Laws
pub mod Faults
pub mod Causes
pub mod LegacyTokens
pub mod Legacy
pub mod Identity
use Prim.Native.Nat.{ℕ}
use Prim.Native.String
use yaagents_gateway.Prelude.{
  String, Bool, true, false, not, ◌&&◌, List, [], ◌∷◌, ◌++◌, Option, none, some, contains, ltb, eqb,
  if◌then◌else◌, ◌==◌,
}
use yaagents_gateway.Prelude.Int.{ℤ, to_ℕ, exceeds}
use yaagents_gateway.Prelude.Text.{cut_prefix, split_cuts, byte_size}
use yaagents_gateway.Prelude.Result.{Result, ok, err, ◌>>=◌, ◌>>◌, fail_if}
use yaagents_gateway.Value.{Object, str_at}
use yaagents_gateway.Http.Header
use yaagents_gateway.Http.Context.{Context, correlation_id, request_id, with_jwt_claims}
use yaagents_gateway.Http.Writer.{
  Writer, ErrorBody, Trace, Message, Arg, plain, sprintf, text, number, write_error, set_header,
}
use yaagents_gateway.Http.Request.{Request, Handler, with_context}
use yaagents_gateway.Jwt.{
  Method, rsa, hmac, Unverified, kid_of, Refused, Parser, ParserOption, ParseError, refused,
  malformed, no_key, parse, with_valid_methods, with_expiration_required, with_audience,
  with_leeway,
}
use yaagents_gateway.Jwks.{
  Jwks, KeyServer, KeyError, PublicKey, unavailable, not_in_stale_set, no_such_key, get_key,
}
use yaagents_gateway.Plugins.{Part}
use yaagents_gateway.Plugins.TokenValidator.Claims.{
  check_audiences, check_required_claims, propagate_claims_to_ctx, with_actor,
}
use yaagents_gateway.Plugins.TokenValidator.Config.{Settings, FailureCodes, IssuerEntry}
use yaagents_gateway.Plugins.TokenValidator.Validators.{
  Key, Provider, Store, NoKey, unexpected_method, key_error, find_validator, peek_algorithm,
  peek_issuer, validate, validate_with, validate_hs256_v2,
}
use yaagents_gateway.Plugins.TokenValidator.Verify.{
  Refusal, absent, oversized, undecodable, disallowed, issuer_unknown, keys_unavailable,
  token_expired, token_not_yet_valid, invalid, wrong_audience, claim_missing, extract_bearer,
  verified_claims,
}
use yaagents_gateway.Plugins.TokenValidator.Answers.{refuse, write_forbidden, write_missing_token}

-- The context behind each handler.
unfoldable pub identified_v1 : Object → Context → Context
identified_v1 mc ctx = with_jwt_claims (with_actor mc ctx) mc

unfoldable pub identified_v2 : Settings → Object → Context → Context
identified_v2 c mc ctx =
    with_actor mc (propagate_claims_to_ctx ctx mc c.propagate_mode c.propagate_claims)

module _ {W X : Type 0} (d : Provider X) (c : Settings) (at : Part W (Store X)) where
  -- `handleV1`
  unfoldable pub handle_v1 : Handler W → Handler W
  unfolding write_missing_token identified_v1
  handle_v1 next r w s = elim (extract_bearer r) [
    | none ↦ (write_missing_token r w, s)
    | some token ↦
        (let (result, store) = validate d c token (at.part s) in
          let s' = at.with_part store s in
          elim result [
            | err e ↦ (write_forbidden "INVALID_TOKEN" "token validation failed" r w, s')
            | ok mc ↦ next (with_context r (identified_v1 mc r.context)) w s'
          ])
  ]

  -- `handleV2`
  unfoldable pub handle_v2 : Handler W → Handler W
  unfolding refuse identified_v2
  handle_v2 next r w s =
      let (result, store) = verified_claims d c r (at.part s) in
      let s' = at.with_part store s in
      elim result [
        | err e ↦ (refuse c e r w, s')
        | ok mc ↦ next (with_context r (identified_v2 c mc r.context)) w s'
      ]

  -- `Handler`
  unfoldable pub handler : Handler W → Handler W
  unfolding handle_v1 handle_v2
  handler next r w s = if c.v2_mode then handle_v2 next r w s else handle_v1 next r w s
