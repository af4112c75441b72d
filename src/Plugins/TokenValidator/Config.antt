-- ===== src/Plugins/TokenValidator/Config.antt =====
-- internal/plugins/tokenvalidator: the fields that Init sets.
use Prim.Native.Nat.{ℕ}
use yaagents_gateway.Prelude.{String, Bool, List}
use yaagents_gateway.Prelude.Int.{ℤ}

-- The status of each failure. WriteHeader panics on one below 100, which is left out here.
pub record FailureCodes : Type 0 where
  pub missing_token : ℤ
  pub invalid_signature : ℤ
  pub expired : ℤ
  pub not_yet_valid : ℤ
  pub unknown_issuer : ℤ
  pub audience_mismatch : ℤ
  pub required_claim_missing : ℤ
  pub disallowed_algorithm : ℤ
  pub oversized_token : ℤ
  pub jwks_unavailable : ℤ

-- A pool entry refers to its validator by a number.
pub record IssuerEntry : Type 0 where
  pub issuer : String
  pub validator : ℕ

-- The fields that Init sets. A nil slice or pool is the empty one; `jwks_val` and the pool are not
-- read where Init leaves them nil. Durations are in nanoseconds.
pub record Settings : Type 0 where
  pub test_mode : Bool
  pub hs256_key : String
  pub jwks_val : ℕ
  pub audience : String
  pub v2_mode : Bool
  pub issuers_pool : List IssuerEntry
  pub algorithms : List String
  pub audiences : List String
  pub clock_skew : ℕ
  pub required_claims : List String
  pub propagate_mode : String
  pub propagate_claims : List String
  pub token_header : String
  pub token_scheme : String
  pub on_failure : FailureCodes
  pub max_token_bytes : ℤ
