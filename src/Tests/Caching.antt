-- ===== src/Tests/Caching.antt =====
-- The cache and the tenant injector on a directory that knows one tenant.
use Prim.Native.Nat.{ℕ}
use yaagents_gateway.Prelude.{true, [], ◌∷◌, none, some, ltb, if◌then◌else◌, ◌≡◌, refl, arith}
use yaagents_gateway.Prelude.Int.{pos}
use yaagents_gateway.Value.{str, str_at}
use yaagents_gateway.Prelude.Maps.{lookup}
use yaagents_gateway.Http.Header
use yaagents_gateway.Http.Header.{Header, canonical_key}
use yaagents_gateway.Http.Writer.{fresh}
use yaagents_gateway.Http.Request.{Request, Handler}
use yaagents_gateway.Lru.{Lru, CacheEntry, new_lru, cache_get, cache_set}
use yaagents_gateway.Lru.Spec.{view, spec_get, spec_set}
use yaagents_gateway.Lru.Laws.{
  cache_get-refines, cache_set-refines, cache_get-cache_set, new_lru-IsSound,
}
use yaagents_gateway.Plugins.{Part}
use yaagents_gateway.Plugins.TenantInjector.{
  Settings, Directory, Store, answered, handler, resolve_tenant, look_up, do_http_lookup, interpret,
}
use yaagents_gateway.Plugins.TenantInjector.Laws.{
  RunsInjected, handler_lem, handler-no_smuggling, Resolved,
}
use yaagents_gateway.Plugins.TenantInjector.Caching.{IsReady, resolve_tenant-IsReady}
use yaagents_gateway.Tests.Fixtures.{visit, reader}

abbrev entry : CacheEntry ℕ
entry = record { key = "k"; value = 1; expires_at = 10 }

abbrev one_place : Lru ℕ
one_place = new_lru 1

get_example : view (cache_get "k" 5 one_place).1 ≡ (spec_get "k" 5 (view one_place)).1
get_example = (cache_get-refines "k" 5 one_place (new_lru-IsSound 1)).1

set_example : view (cache_set entry one_place) ≡ spec_set 1 entry (view one_place)
set_example = (cache_set-refines entry one_place (new_lru-IsSound 1) (omega arith)).0

get_set_example :
    (cache_get "k" 5 (cache_set entry one_place)).0 ≡ (if ltb 10 5 then none else some 1)
get_set_example = cache_get-cache_set entry 5 one_place (new_lru-IsSound 1) (omega arith)

abbrev pub injector_settings : Settings
injector_settings = record {
  principal_claim = "sub";
  lookup_url = "http://directory/{principal}";
  lookup_method = "GET";
  lookup_headers = [];
  bearer_token = "";
  tenant_id_field = "tenant_id";
  inject_tenant_header = "X-Tenant-ID";
  inject_principal_hdr = "X-Principal";
  allowlist = [];
  cache_ttl = pos 300;
  negative_cache_ttl = pos 30;
  failures = record {
    lookup_network_error = pos 503;
    lookup_timeout_code = pos 503;
    principal_not_found_code = pos 403;
    claim_missing = pos 401;
  };
  client_timeout = pos 500;
}

-- The outside is the time.
abbrev directory : Directory ℕ
directory = record {
  now = λ x. x;
  path_escape = λ s. s;
  is_valid_request = λ method url. true;
  fetch = λ q x. (answered 200 (some "{}"), x);
  unmarshal = λ s. some (("tenant_id", str "t1") ∷ []);
}

abbrev store : Store ℕ
store = record { cache = new_lru 10; outside = 0 }

abbrev whole : Part (Store ℕ) (Store ℕ)
whole = record { part = λ s. s; with_part = λ s old. s }

abbrev last_handler : Handler (Store ℕ)
last_handler r w s = (w, s)

-- A request whose token names a principal.
abbrev signed : Request
signed = record visit {
  context = record reader { jwt_claims_value = some (("sub", str "u1") ∷ []) };
}

store-IsReady : IsReady store
store-IsReady = (new_lru-IsSound 10, omega arith)

signed-Resolved : Resolved directory injector_settings whole signed store "u1" "t1"
unfolding resolve_tenant look_up do_http_lookup interpret cache_get lookup str_at
signed-Resolved = (refl, λ e. cc, refl, refl)

injector_example :
    RunsInjected directory injector_settings whole last_handler signed fresh store "u1" "t1"
injector_example =
    (handler_lem directory injector_settings whole last_handler signed fresh store).0 "u1" "t1"
      signed-Resolved

smuggling_example :
    handler directory injector_settings whole last_handler
      (record signed { header = Header.set signed.header "X-Tenant-ID" "evil" })
      fresh
      store
    ≡ handler directory injector_settings whole last_handler signed fresh store
smuggling_example =
    (handler-no_smuggling directory injector_settings whole last_handler signed fresh store
      "evil").0

cache_example : IsReady (resolve_tenant directory injector_settings "u1" store).1
cache_example = resolve_tenant-IsReady directory injector_settings "u1" store store-IsReady
