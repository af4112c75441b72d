-- ===== src/Plugins/TokenValidator/Init/Fields.antt =====
-- `Init` of the token validator: the settings besides the keys.
use Prim.Native.Nat.{ℕ}
use yaagents_gateway.Prelude.{
  String, Bool, not, ◌&&◌, ◌||◌, List, [], ◌∷◌, Option, none, some, any, if◌then◌else◌, ◌==◌,
}
use yaagents_gateway.Prelude.Int.{ℤ, pos, is_neg, is_zero, exceeds}
use yaagents_gateway.Prelude.Text.{equal_fold}
use yaagents_gateway.Prelude.Maps.{lookup}
use yaagents_gateway.Prelude.Result.{Result, ok, err, ◌>>=◌, ◌>>◌, fail_if}
use yaagents_gateway.Value.{
  Value, null, strs, int, int64, float64, list, Object, elems, as_str, as_object, str_at, all_texts,
}
use yaagents_gateway.Plugin.MapConfig.{
  MapConfig, get_bool, get_string, get_string_slice, get_int, raw_values,
}
use yaagents_gateway.Plugins.TokenValidator.Config.{FailureCodes}
use yaagents_gateway.Plugins.TokenValidator.Init.Issuers.{
  InitError, none_forbidden, bad_skew, bad_mode, no_claims_list, no_token_header, bad_size,
}

-- `stringSliceFromAny`: none for an error.
unfoldable pub string_slice_from_any : Option Value → Option (List String)
string_slice_from_any none = some []
string_slice_from_any (some null) = some []
string_slice_from_any (some (strs ss)) = some ss
string_slice_from_any (some (list vs)) = all_texts (elems vs)
string_slice_from_any (some _) = none

-- `defaultFailureCodes` and `defaultFailureCodesV1`
abbrev suite : ℕ → FailureCodes
suite code = record {
  missing_token = pos code;
  invalid_signature = pos code;
  expired = pos code;
  not_yet_valid = pos code;
  unknown_issuer = pos code;
  audience_mismatch = pos code;
  required_claim_missing = pos code;
  disallowed_algorithm = pos code;
  oversized_token = pos 400;
  jwks_unavailable = pos 503;
}

abbrev pub default_failure_codes : FailureCodes
default_failure_codes = suite 401

abbrev pub default_failure_codes_v1 : FailureCodes
default_failure_codes_v1 = suite 403

abbrev code_or : ℤ → Option Value → ℤ
code_or default (some (int n)) = n
code_or default (some (int64 n)) = n
code_or default (some (float64 n)) = n
code_or default _ = default

-- `parseFailureCodes`
unfoldable pub parse_failure_codes : Object → FailureCodes → FailureCodes
parse_failure_codes m def = record {
  missing_token = code_or def.missing_token (lookup "missing_token" m);
  invalid_signature = code_or def.invalid_signature (lookup "invalid_signature" m);
  expired = code_or def.expired (lookup "expired" m);
  not_yet_valid = code_or def.not_yet_valid (lookup "not_yet_valid" m);
  unknown_issuer = code_or def.unknown_issuer (lookup "unknown_issuer" m);
  audience_mismatch = code_or def.audience_mismatch (lookup "audience_mismatch" m);
  required_claim_missing = code_or def.required_claim_missing (lookup "required_claim_missing" m);
  disallowed_algorithm = code_or def.disallowed_algorithm (lookup "disallowed_algorithm" m);
  oversized_token = code_or def.oversized_token (lookup "oversized_token" m);
  jwks_unavailable = code_or def.jwks_unavailable (lookup "jwks_unavailable" m);
}

abbrev pub or_default {ℓ} : {A : Type ℓ} → List A → List A → List A
or_default [] default = default
or_default (x ∷ xs) default = x ∷ xs

-- Step (2).
unfoldable pub allowed_algorithms : MapConfig → Result InitError (List String)
allowed_algorithms cfg =
    let algs = or_default (get_string_slice cfg "algorithms") ("RS256" ∷ "ES256" ∷ []) in
    if get_bool cfg "test_mode"
    then ok ("HS256" ∷ [])
    else (do fail_if (any (λ a. equal_fold a "none") algs) none_forbidden; ok algs)

abbrev promoted : String → Bool → List String
promoted audience v1_shim = if v1_shim && not (audience == "") then audience ∷ [] else []

-- Step (3).
unfoldable pub audiences_of : MapConfig → Bool → List String
audiences_of cfg v1_shim =
    or_default (get_string_slice cfg "audiences") (promoted (get_string cfg "audience") v1_shim)

-- A number from 1 to a maximum, where 0 stands for a default.
unfoldable pub in_range : ℤ → ℕ → ℕ → InitError → Result InitError ℤ
in_range given default max e =
    let n = if is_zero given then pos default else given in
    do fail_if (is_neg n || exceeds n max) e; ok n

-- Step (4), in seconds.
unfoldable pub skew_of : MapConfig → Result InitError ℤ
unfolding in_range
skew_of cfg = in_range (get_int cfg "clock_skew_seconds") 60 600 bad_skew

abbrev pub some_names : Option (List String) → Result InitError (List String)
some_names (some (name ∷ names)) = ok (name ∷ names)
some_names (some []) = err no_claims_list
some_names none = err no_claims_list

abbrev pub or_else : String → String → String
or_else s default = if s == "" then default else s

-- Step (6): the mode and the allowlist.
unfoldable pub propagation : Option Object → Result InitError (String × List String)
unfolding string_slice_from_any
propagation none = ok ("all", [])
propagation (some pc) =
    let mode = or_else (str_at "mode" pc) "all" in
    do
      fail_if (not (mode == "all") && not (mode == "allowlist")) bad_mode
      claims ←
          if mode == "allowlist"
          then some_names (string_slice_from_any (lookup "claims" pc))
          else ok []
      ok (mode, claims)

abbrev pub text_or : String → Option String → String
text_or default none = default
text_or default (some s) = s

-- Step (7): the header and the scheme.
unfoldable pub token_fields : Option Object → Result InitError (String × String)
token_fields none = ok ("Authorization", "Bearer")
token_fields (some t) =
    let header = or_else (str_at "header" t) "Authorization" in
    do
      fail_if (header == "") no_token_header
      ok (header, text_or "Bearer" (as_str (lookup "scheme" t)))

-- Step (9).
unfoldable pub max_bytes_of : MapConfig → Result InitError ℤ
unfolding in_range
max_bytes_of cfg = in_range (get_int cfg "max_token_bytes") 8192 65536 bad_size

abbrev codes_over : FailureCodes → Option Object → FailureCodes
codes_over def none = def
codes_over def (some m) = parse_failure_codes m def

-- Step (8).
unfoldable pub failure_codes_of : MapConfig → Bool → FailureCodes
unfolding parse_failure_codes
failure_codes_of cfg v1_shim =
    codes_over (if v1_shim then default_failure_codes_v1 else default_failure_codes)
      (as_object (lookup "on_failure" (raw_values cfg)))
