-- ===== src/Plugins/TenantInjector/Init.antt =====
-- `Init` of the tenant injector: the checks in the order of the source, then the settings. Durations
-- do not reach the bounds of int64.
use yaagents_gateway.Prelude.{
  String, Bool, true, false, not, ◌&&◌, ◌||◌, List, [], ◌∷◌, Option, none, some, eqb, if◌then◌else◌,
  ◌==◌,
}
use yaagents_gateway.Prelude.Int.{ℤ, pos, is_nonpos, is_zero, exceeds, to_ℕ, seconds, milliseconds}
use yaagents_gateway.Prelude.Text.{count_of}
use yaagents_gateway.Prelude.Maps.{lookup}
use yaagents_gateway.Prelude.Result.{Result, ok, err, ◌>>=◌, ◌>>◌, fail_if}
use yaagents_gateway.Value.{Value, str, int, int64, float64, Object, as_object, str_at}
use yaagents_gateway.Plugin.MapConfig.{MapConfig, get_bool, get_string_slice, raw_values}
use yaagents_gateway.World.{Url}
use yaagents_gateway.Lru.{Lru, new_lru}
use yaagents_gateway.Plugins.TenantInjector.{Settings, FailureCodes, Cached}

pub data InitError : Type 0 where
  plugin_disabled no_principal_claim bad_url bad_placeholder bad_method timeout_too_long : InitError
  no_token_env no_token no_cert_paths cert_unreadable key_unreadable bad_auth_mode : InitError
  bad_response_mode bad_ttl bad_max_entries no_tenant_header : InitError

-- What Init asks of the outside: url.Parse, os.Getenv and whether os.Stat succeeds.
pub record Host : Type 0 where
  pub parse_url : String → Option Url
  pub getenv : String → String
  pub stats : String → Bool

-- `submap`: a nil map and an empty one read alike.
abbrev or_no_fields : Option Object → Object
or_no_fields none = []
or_no_fields (some m) = m

unfoldable pub submap : Object → String → Object
submap m key = or_no_fields (as_object (lookup key m))

abbrev integer_or_zero : Option Value → ℤ
integer_or_zero (some (int n)) = n
integer_or_zero (some (int64 n)) = n
integer_or_zero (some (float64 n)) = n
integer_or_zero _ = pos 0

-- `mapInt`
unfoldable pub map_int : Object → String → ℤ
map_int m key = integer_or_zero (lookup key m)

-- `mapIntDefault`
unfoldable pub map_int_default : Object → String → ℤ → ℤ
unfolding map_int
map_int_default m key default = if is_zero (map_int m key) then default else map_int m key

-- `mapIntPresent`
unfoldable pub map_int_present : Object → String → Option ℤ
map_int_present m key = elim (lookup key m) [
  | none ↦ none
  | some v ↦ some (integer_or_zero (some v))
]

unfoldable pub texts_in : Object → List (String × String)
texts_in [] = []
texts_in ((k, str s) ∷ m) = (k, s) ∷ texts_in m
texts_in ((k, v) ∷ m) = texts_in m

-- `mapStrMap`: nil and empty read alike.
unfoldable pub map_str_map : Object → String → List (String × String)
unfolding texts_in submap
map_str_map m key = texts_in (submap m key)

abbrev or_else : String → String → String
or_else s default = if s == "" then default else s

abbrev parses : Host → String → Bool
parses h url = elim (h.parse_url url) [ none ↦ false | some u ↦ true ]

-- Rule 5: the bearer token, empty in the other modes.
unfoldable pub auth_token : Host → Object → Result InitError String
auth_token h auth =
    let mode = or_else (str_at "mode" auth) "none" in
    if mode == "none"
    then ok ""
    else if mode == "bearer"
    then (do
      fail_if (str_at "bearer_token_env" auth == "") no_token_env
      fail_if (h.getenv (str_at "bearer_token_env" auth) == "") no_token
      ok (h.getenv (str_at "bearer_token_env" auth)))
    else if mode == "mtls"
    then (do
      fail_if (str_at "client_cert_path" auth == "" || str_at "client_key_path" auth == "")
          no_cert_paths
      fail_if (not (h.stats (str_at "client_cert_path" auth))) cert_unreadable
      fail_if (not (h.stats (str_at "client_key_path" auth))) key_unreadable
      ok "")
    else err bad_auth_mode

-- A value that, if present, has to be positive.
unfoldable pub positive_or : Object → String → ℤ → InitError → Result InitError ℤ
unfolding map_int_present
positive_or m key default e = elim (map_int_present m key) [
  | none ↦ ok default
  | some n ↦ if is_nonpos n then err e else ok n
]

unfoldable pub failure_codes : Object → FailureCodes
unfolding map_int_default
failure_codes m = record {
  lookup_network_error = map_int_default m "lookup_network_error" (pos 503);
  lookup_timeout_code = map_int_default m "lookup_timeout" (pos 503);
  principal_not_found_code = map_int_default m "principal_not_found" (pos 403);
  claim_missing = map_int_default m "claim_missing" (pos 401);
}

-- `Init`: the settings and the empty cache.
unfoldable pub init : Host → MapConfig → Result InitError (Settings × Lru Cached)
unfolding auth_token positive_or failure_codes map_str_map submap
init h cfg =
    let raw = raw_values cfg in
    let look = submap raw "lookup" in
    let url = str_at "url" look in
    let method = or_else (str_at "method" look) "GET" in
    let given = map_int look "timeout_ms" in
    let timeout = if is_nonpos given then pos 500 else given in
    let response = submap look "response" in
    let mode = or_else (str_at "mode" response) "single" in
    let target = submap raw "inject" in
    do
      fail_if (not (get_bool cfg "enabled")) plugin_disabled
      fail_if (str_at "claim" (submap raw "principal") == "") no_principal_claim
      fail_if (not (parses h url) || url == "") bad_url
      fail_if (not (eqb (count_of url "{principal}") 1)) bad_placeholder
      fail_if (not (method == "GET") && not (method == "POST")) bad_method
      fail_if (exceeds timeout 30000) timeout_too_long
      token ← auth_token h (submap look "auth")
      fail_if (not (mode == "single")) bad_response_mode
      ttl ← positive_or (submap look "cache") "ttl_seconds" (pos 300) bad_ttl
      max ← positive_or (submap look "cache") "max_entries" (pos 10000) bad_max_entries
      fail_if (str_at "tenant_header" target == "") no_tenant_header
      ok (
        record {
          principal_claim = str_at "claim" (submap raw "principal");
          lookup_url = url;
          lookup_method = method;
          lookup_headers = map_str_map look "headers";
          bearer_token = token;
          tenant_id_field = or_else (str_at "tenant_id_field" response) "tenant_id";
          inject_tenant_header = str_at "tenant_header" target;
          inject_principal_hdr = str_at "principal_header" target;
          allowlist = get_string_slice cfg "allowlist";
          cache_ttl = seconds ttl;
          negative_cache_ttl =
              seconds (map_int_default (submap look "cache") "negative_ttl_seconds" (pos 30));
          failures = failure_codes (submap raw "on_failure");
          client_timeout = milliseconds timeout;
        },
        new_lru (to_ℕ max),
      )
