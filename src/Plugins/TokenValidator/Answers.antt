-- ===== src/Plugins/TokenValidator/Answers.antt =====
-- internal/plugins/tokenvalidator/plugin.go: the error responses.
use yaagents_gateway.Prelude.{String, [], ◌∷◌, if◌then◌else◌, ◌==◌}
use yaagents_gateway.Prelude.Int.{ℤ, to_ℕ}
use yaagents_gateway.Http.Header
use yaagents_gateway.Http.Context.{correlation_id, request_id}
use yaagents_gateway.Http.Writer.{
  Writer, Trace, Message, plain, sprintf, text, number, write_error, set_header,
}
use yaagents_gateway.Http.Request.{Request}
use yaagents_gateway.Plugins.TokenValidator.Config.{Settings}
use yaagents_gateway.Plugins.TokenValidator.Verify.{
  Refusal, absent, oversized, undecodable, disallowed, issuer_unknown, keys_unavailable,
  token_expired, token_not_yet_valid, invalid, wrong_audience, claim_missing,
}

abbrev or_header : String → Header.Header → String → String
or_header id h key = if id == "" then Header.get h key else id

-- The trace of an error body, with the client's ids where the context has none.
abbrev trace_or_headers : Request → Trace
trace_or_headers r = record {
  correlation_id = or_header (correlation_id r.context) r.header "X-Correlation-ID";
  request_id = or_header (request_id r.context) r.header "X-Request-ID";
  dependency = "";
}

-- `writeV2Error`
abbrev write_v2_error : ℤ → String → Message → Request → Writer → Writer
write_v2_error status code message r w =
    write_error (to_ℕ status)
      (record {
        kind = "error";
        code = code;
        message = message;
        retry_after = 0;
        trace = trace_or_headers r;
      })
      w

-- The answers of handleV2.
unfoldable pub refuse : Settings → Refusal → Request → Writer → Writer
refuse c absent =
    write_v2_error c.on_failure.missing_token "MISSING_TOKEN" (plain "token is required")
refuse c oversized =
    write_v2_error c.on_failure.oversized_token "OVERSIZED_TOKEN"
      (sprintf "token exceeds maximum size of %d bytes" (number c.max_token_bytes ∷ []))
refuse c undecodable =
    write_v2_error c.on_failure.invalid_signature "INVALID_TOKEN"
      (plain "malformed JWT: cannot decode header")
refuse c (disallowed alg) =
    write_v2_error c.on_failure.disallowed_algorithm "DISALLOWED_ALGORITHM"
      (sprintf "algorithm %q is not allowed" (text alg ∷ []))
refuse c (issuer_unknown iss) =
    write_v2_error c.on_failure.unknown_issuer "UNKNOWN_ISSUER"
      (sprintf "issuer %q is not configured" (text iss ∷ []))
refuse c keys_unavailable =
    write_v2_error c.on_failure.jwks_unavailable "JWKS_UNAVAILABLE"
      (plain "JWKS service unavailable; try again later")
refuse c token_expired =
    write_v2_error c.on_failure.expired "TOKEN_EXPIRED" (plain "token has expired")
refuse c token_not_yet_valid =
    write_v2_error c.on_failure.not_yet_valid "TOKEN_NOT_YET_VALID" (plain "token is not yet valid")
refuse c invalid =
    write_v2_error c.on_failure.invalid_signature "INVALID_TOKEN" (plain "token validation failed")
refuse c wrong_audience =
    write_v2_error c.on_failure.audience_mismatch "AUDIENCE_MISMATCH"
      (plain "token audience does not match configured audiences")
refuse c (claim_missing name) =
    write_v2_error c.on_failure.required_claim_missing "REQUIRED_CLAIM_MISSING"
      (sprintf "required claim %q is missing or empty" (text name ∷ []))

-- `writeForbidden`
abbrev pub write_forbidden : String → String → Request → Writer → Writer
write_forbidden code message r w =
    write_error 403
      (record {
        kind = "forbidden";
        code = code;
        message = plain message;
        retry_after = 0;
        trace = trace_or_headers r;
      })
      w

-- `writeMissingToken`
unfoldable pub write_missing_token : Request → Writer → Writer
write_missing_token r w =
    write_error 401
      (record {
        kind = "unauthorized";
        code = "MISSING_TOKEN";
        message = plain "Authorization header with Bearer token is required";
        retry_after = 0;
        trace = trace_or_headers r;
      })
      (set_header "WWW-Authenticate" "Bearer realm=\"yaagents-gateway\"" w)
