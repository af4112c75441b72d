-- ===== src/Plugins/TokenValidator/Statuses.antt =====
-- The status of each refusal.
use yaagents_gateway.Prelude.{none, some, ◌≡◌}
use yaagents_gateway.Prelude.Int.{ℤ, to_ℕ}
use yaagents_gateway.Http.Writer.{Writer, status_of}
use yaagents_gateway.Http.Request.{Request}
use yaagents_gateway.Http.Laws.{write_error_lem}
use yaagents_gateway.Plugins.TokenValidator.Config.{Settings}
use yaagents_gateway.Plugins.TokenValidator.Verify.{
  Refusal, absent, oversized, undecodable, disallowed, issuer_unknown, keys_unavailable,
  token_expired, token_not_yet_valid, invalid, wrong_audience, claim_missing,
}
use yaagents_gateway.Plugins.TokenValidator.Answers.{refuse}

-- The status that is configured for a refusal.
abbrev pub code_for : Settings → Refusal → ℤ
code_for c absent = c.on_failure.missing_token
code_for c oversized = c.on_failure.oversized_token
code_for c undecodable = c.on_failure.invalid_signature
code_for c (disallowed alg) = c.on_failure.disallowed_algorithm
code_for c (issuer_unknown iss) = c.on_failure.unknown_issuer
code_for c keys_unavailable = c.on_failure.jwks_unavailable
code_for c token_expired = c.on_failure.expired
code_for c token_not_yet_valid = c.on_failure.not_yet_valid
code_for c invalid = c.on_failure.invalid_signature
code_for c wrong_audience = c.on_failure.audience_mismatch
code_for c (claim_missing name) = c.on_failure.required_claim_missing

pub refuse-status :
    (c : Settings) (e : Refusal) (r : Request) (w : Writer)
    → w.sent ≡ none
    → status_of (refuse c e r w) ≡ some (to_ℕ (code_for c e))
unfolding refuse
refuse-status c absent r w h = (write_error_lem _ _ w h).0
refuse-status c oversized r w h = (write_error_lem _ _ w h).0
refuse-status c undecodable r w h = (write_error_lem _ _ w h).0
refuse-status c (disallowed alg) r w h = (write_error_lem _ _ w h).0
refuse-status c (issuer_unknown iss) r w h = (write_error_lem _ _ w h).0
refuse-status c keys_unavailable r w h = (write_error_lem _ _ w h).0
refuse-status c token_expired r w h = (write_error_lem _ _ w h).0
refuse-status c token_not_yet_valid r w h = (write_error_lem _ _ w h).0
refuse-status c invalid r w h = (write_error_lem _ _ w h).0
refuse-status c wrong_audience r w h = (write_error_lem _ _ w h).0
refuse-status c (claim_missing name) r w h = (write_error_lem _ _ w h).0
