-- ===== src/Tenant.antt =====
-- internal/tenant/tenant.go: the request context, the tenant requirement of a route, and the
-- headers of the request to the upstream. The random ids are a parameter.
pub mod Laws
use yaagents_gateway.Prelude.{
  String, Bool, ◌&&◌, List, [], ◌∷◌, Option, none, some, if◌then◌else◌, ◌==◌,
}
use Prim.Native.String
use yaagents_gateway.Http.Header
use yaagents_gateway.Http.Header.{Header}
use yaagents_gateway.Http.Context.{
  AuthClaims, correlation_id, request_id, tenant_id, actor_subject, actor_roles,
  with_correlation_id, with_request_id, with_tenant_id, with_actor_subject, with_actor_roles,
  Context,
}
use yaagents_gateway.Http.Writer.{Writer, set_header, write_error, plain, Trace}
use yaagents_gateway.Http.Request.{Request, Handler, with_context}

abbrev or_nobody : Option AuthClaims → String × List String
or_nobody none = ("", [])
or_nobody (some c) = (c.subject, c.roles)

-- `traceFromReq`, and the traces written out elsewhere: the ids of the context.
abbrev pub trace_of : Context → String → Trace
trace_of c dependency = record {
  correlation_id = correlation_id c;
  request_id = request_id c;
  dependency = dependency;
}

module _ {W : Type 0} where
  -- `ContextMiddleware`, given the UUIDs that its calls of NewUUID return.
  unfoldable pub context_middleware : String → String → Handler W → Handler W
  context_middleware fresh_correlation fresh_request next r w s =
      let given = Header.get r.header "X-Correlation-ID" in
      let corr_id = if given == "" then fresh_correlation else given in
      let (subject, roles) = or_nobody r.context.auth_claims_value in
      let c₁ = with_correlation_id r.context corr_id in
      let c₂ = with_request_id c₁ fresh_request in
      let c₃ = with_tenant_id c₂ (Header.get r.header "X-Tenant-ID") in
      let c₄ = with_actor_subject c₃ subject in
      let c₅ = with_actor_roles c₄ roles in
      let w₁ = set_header "X-Correlation-ID" corr_id w in
      let w₂ = set_header "X-Request-ID" fresh_request w₁ in next (with_context r c₅) w₂ s

  -- `EnforceTenant`
  unfoldable pub enforce_tenant : Bool → Handler W → Handler W
  enforce_tenant tenant_required next r w s =
      if tenant_required && tenant_id r.context == ""
      then (
        write_error 403
            (record {
              kind = "forbidden";
              code = "TENANT_REQUIRED";
              message = plain "route requires X-Tenant-ID header";
              retry_after = 0;
              trace = trace_of r.context "";
            })
            w,
        s,
      )
      else next r w s

-- `strings.Join(xs, ",")`
unfoldable pub join_commas : List String → String
join_commas [] = ""
join_commas (x ∷ []) = x
join_commas (x ∷ y ∷ xs) = String.◌++◌ x (String.◌++◌ "," (join_commas (y ∷ xs)))

abbrev pub set_unless_empty : String → String → Header → Header
set_unless_empty key value h = if value == "" then h else Header.set h key value

abbrev pub set_roles : List String → Header → Header
set_roles [] h = h
set_roles (x ∷ xs) h = Header.set h "X-Actor-Roles" (join_commas (x ∷ xs))

-- `InjectUpstreamHeaders`, on the header of the outgoing request.
unfoldable pub inject_upstream_headers : Context → Header → Header
inject_upstream_headers c h =
    let h₁ = set_unless_empty "X-Tenant-ID" (tenant_id c) h in
    let h₂ = set_unless_empty "X-Actor-Subject" (actor_subject c) h₁ in
    let h₃ = set_roles (actor_roles c) h₂ in
    let h₄ = Header.set h₃ "X-Correlation-ID" (correlation_id c) in
    Header.set h₄ "X-Request-ID" (request_id c)
