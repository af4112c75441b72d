-- ===== src/Plugins/TenantInjector.antt =====
-- internal/plugins/tenantinjector/plugin.go: the tenant of a request, from a claim of its token and a
-- lookup in a directory. golang.org/x/sync/singleflight runs the lookup of a lone caller as a call
-- does; callers that share one lookup are left out.
pub mod Init
pub mod Laws
pub mod Caching
use Prim.Native.Nat.{ℕ, ◌+◌, ◌-◌}
use Prim.Native.String
use yaagents_gateway.Prelude.{
  String, Bool, true, false, not, ◌&&◌, ◌||◌, List, [], ◌∷◌, Option, none, some, contains, ltb, leb,
  eqb, if◌then◌else◌, ◌==◌,
}
use yaagents_gateway.Prelude.Int.{ℤ, pos, negsuc, to_ℕ, moved}
use yaagents_gateway.Prelude.Text.{replace_all}
use yaagents_gateway.Prelude.Result.{Result, ok, err}
use yaagents_gateway.Value.{Object, str_at}
use yaagents_gateway.Http.Header
use yaagents_gateway.Http.Header.{Header}
use yaagents_gateway.Http.Context.{Context, jwt_claims}
use yaagents_gateway.Http.Writer.{
  Writer, ErrorBody, Message, Arg, plain, sprintf, text, write_error,
}
use yaagents_gateway.Http.Request.{Request, Handler}
use yaagents_gateway.Tenant.{trace_of}
use yaagents_gateway.Lru.{Lru, CacheEntry, cache_get, cache_set}
use yaagents_gateway.Plugins.{Part}

-- The status of each failure. WriteHeader panics on one below 100, which is left out here.
pub record FailureCodes : Type 0 where
  pub lookup_network_error : ℤ
  pub lookup_timeout_code : ℤ
  pub principal_not_found_code : ℤ
  pub claim_missing : ℤ

-- The fields that Init sets. An empty allowlist is a nil one. Durations are in nanoseconds.
pub record Settings : Type 0 where
  pub principal_claim : String
  pub lookup_url : String
  pub lookup_method : String
  pub lookup_headers : List (String × String)
  pub bearer_token : String
  pub tenant_id_field : String
  pub inject_tenant_header : String
  pub inject_principal_hdr : String
  pub allowlist : List String
  pub cache_ttl : ℤ
  pub negative_cache_ttl : ℤ
  pub failures : FailureCodes
  pub client_timeout : ℤ

-- The value of a cache entry: (tenantID, negative).
abbrev pub Cached : Type 0
Cached = String × Bool

pub data LookupError : Type 0 where
  principal_not_found lookup_timeout lookup_network : LookupError

pub record LookupRequest : Type 0 where
  pub method : String
  pub url : String
  pub header : Header
  pub timeout : ℤ

-- What the HTTP client's Do returns: an error, with whether it is a timeout, or a response with what
-- ReadAll reads of the first 64 KiB of its body, none if that fails.
pub data Reply : Type 0 where
  failed : Bool → Reply
  answered : ℕ → Option String → Reply

-- What the plugin asks of the outside: the clock, net/url, the network and encoding/json. `unmarshal`
-- gives none on an error; a JSON null is the empty map.
pub record Directory (X : Type 0) : Type 0 where
  pub now : X → ℕ
  pub path_escape : String → String
  pub is_valid_request : String → String → Bool
  pub fetch : LookupRequest → X → Reply × X
  pub unmarshal : String → Option Object

-- The cache and the outside.
pub record Store (X : Type 0) : Type 0 where
  pub cache : Lru Cached
  pub outside : X

abbrev set_all : List (String × String) → Header → Header
set_all [] h = h
set_all ((k, v) ∷ kvs) h = set_all kvs (Header.set h k v)

abbrev set_bearer : String → Header → Header
set_bearer token h =
    if token == "" then h else Header.set h "Authorization" (String.◌++◌ "Bearer " token)

-- `if tenantID == "" { return "", errPrincipalNotFound }`
abbrev pub tenant_in : String → Object → Result LookupError String
tenant_in name payload =
    let id = str_at name payload in if id == "" then err principal_not_found else ok id

-- The part of `doHTTPLookup` behind `httpClient.Do`.
unfoldable pub interpret : (String → Option Object) → String → Reply → Result LookupError String
interpret unmarshal name (failed true) = err lookup_timeout
interpret unmarshal name (failed false) = err lookup_network
interpret unmarshal name (answered status body) =
    if eqb status 404
    then err principal_not_found
    else if ltb status 200 || leb 300 status
    then err lookup_network
    else (elim body [
      | none ↦ err lookup_network
      | some bytes ↦ elim (unmarshal bytes) [
        | none ↦ err lookup_network
        | some payload ↦ tenant_in name payload
      ]
    ])

module _ {X : Type 0} (d : Directory X) (c : Settings) where
  abbrev lookup_request : String → LookupRequest
  lookup_request url = record {
    method = c.lookup_method;
    url = url;
    header = set_bearer c.bearer_token (set_all c.lookup_headers []);
    timeout = c.client_timeout;
  }

  -- `doHTTPLookup`
  unfoldable pub do_http_lookup : String → X → Result LookupError String × X
  unfolding interpret
  do_http_lookup principal x =
      let url = replace_all c.lookup_url "{principal}" (d.path_escape principal) in
      if d.is_valid_request c.lookup_method url
      then (let (reply, x') = d.fetch (lookup_request url) x in
          (interpret d.unmarshal c.tenant_id_field reply, x'))
      else (err lookup_network, x)

  abbrev pub write_entry : String → Cached → ℤ → Store X → Store X
  write_entry principal value ttl s = record s {
    cache =
        cache_set
          (record { key = principal; value = value; expires_at = moved (d.now s.outside) ttl })
          s.cache;
  }

  -- The caching of a lookup's result.
  unfoldable pub remember : String → Result LookupError String → Store X → Store X
  remember principal (ok tenant) s = write_entry principal (tenant, false) c.cache_ttl s
  remember principal (err principal_not_found) s =
      write_entry principal ("", true) c.negative_cache_ttl s
  remember principal (err lookup_timeout) s = s
  remember principal (err lookup_network) s = s

  -- The function that `sfGroup.Do` is given.
  unfoldable pub look_up : String → Store X → Result LookupError String × Store X
  unfolding do_http_lookup remember
  look_up principal s =
      let (result, x) = do_http_lookup principal s.outside in
      (result, remember principal result (record s { outside = x }))

  -- `resolveTenant`
  unfoldable pub resolve_tenant : String → Store X → Result LookupError String × Store X
  unfolding look_up
  resolve_tenant principal s =
      let (found, cache) = cache_get principal (d.now s.outside) s.cache in
      let s' = record s { cache = cache } in
      elim found [
        | none ↦ look_up principal s'
        | some (tenant, negative) ↦ (if negative then err principal_not_found else ok tenant, s')
      ]

-- `writeErr`
abbrev pub write_err : ℤ → String → Message → String → Request → Writer → Writer
write_err status code message dependency r w =
    write_error (to_ℕ status)
      (record {
        kind = "error";
        code = code;
        message = message;
        retry_after = 0;
        trace = trace_of r.context dependency;
      })
      w

-- The switch on the error of `resolveTenant`.
unfoldable pub lookup_failed : FailureCodes → LookupError → Request → Writer → Writer
lookup_failed f principal_not_found r w =
    write_err f.principal_not_found_code "principal_not_found"
      (plain "principal has no associated tenant") "" r w
lookup_failed f lookup_timeout r w =
    write_err f.lookup_timeout_code "lookup_timeout" (plain "tenant directory lookup timed out")
      "iam-lookup" r w
lookup_failed f lookup_network r w =
    write_err f.lookup_network_error "lookup_network_error" (plain "tenant directory lookup failed")
      "iam-lookup" r w

-- The allowlist admits a tenant; an empty one admits all.
abbrev pub is_allowed : List String → String → Bool
is_allowed [] tenant = true
is_allowed (x ∷ xs) tenant = contains (x ∷ xs) tenant

-- The headers that are injected.
unfoldable pub inject : Settings → String → String → Request → Request
inject c principal tenant r =
    let h = Header.set r.header c.inject_tenant_header tenant in
    record r {
      header =
          if c.inject_principal_hdr == "" then h else Header.set h c.inject_principal_hdr principal;
    }

-- The claim that names the principal; none if there are no claims.
abbrev pub principal_of : Settings → Context → Option String
principal_of c ctx = elim (jwt_claims ctx) [
  | none ↦ none
  | some claims ↦ some (str_at c.principal_claim claims)
]

-- The inbound tenant header is stripped.
abbrev pub stripped : Settings → Request → Request
stripped c r = record r { header = Header.del r.header c.inject_tenant_header }

module _ {W X : Type 0} (d : Directory X) (c : Settings) (at : Part W (Store X)) where
  -- The handler behind the claim.
  unfoldable pub with_principal : String → Handler W → Handler W
  unfolding inject lookup_failed
  with_principal principal next r w s =
      let (result, store) = resolve_tenant d c principal (at.part s) in
      let s' = at.with_part store s in
      elim result [
        | err e ↦ (lookup_failed c.failures e r w, s')
        | ok tenant ↦
            if is_allowed c.allowlist tenant then next (inject c principal tenant r) w s' else (
              write_err c.failures.principal_not_found_code "tenant_not_in_allowlist"
                  (plain "derived tenant is not in the configured allowlist") "" r w,
              s',
            )
      ]

  -- The steps behind the stripping of the inbound header.
  unfoldable pub identify : Handler W → Handler W
  unfolding with_principal
  identify next r w s = elim (principal_of c r.context) [
    | none ↦ (
      write_err c.failures.claim_missing "claim_missing"
          (plain
            "JWT claims not found in context (token-validator must run before tenant-injector)")
          "" r w,
      s,
    )
    | some principal ↦
        if principal == ""
        then (
          write_err c.failures.claim_missing "claim_missing"
              (sprintf "JWT claim %q is absent or empty" (text c.principal_claim ∷ [])) "" r w,
          s,
        )
        else with_principal principal next r w s
  ]

  -- `Handler`
  unfoldable pub handler : Handler W → Handler W
  unfolding identify
  handler next r w s = identify next (stripped c r) w s
