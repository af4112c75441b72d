-- ===== src/Proxy/Observe/Frame.antt =====
-- No handler of a route touches the metrics or the audit log, which the dispatcher keeps around it.
use yaagents_gateway.Prelude.{String, ◌≡◌, refl, inl, inr, Bool-cases, Option-cases, ◌==◌, ◌&&◌}
use yaagents_gateway.Prelude.Result.{Result-cases}
use yaagents_gateway.Http.Context.{tenant_id}
use yaagents_gateway.Http.Writer.{Writer}
use yaagents_gateway.Http.Request.{Request, Handler}
use yaagents_gateway.Routes.{Route}
use yaagents_gateway.Tenant.{enforce_tenant}
use yaagents_gateway.World.{
  Url, Outside, World, TransportError, deadline_exceeded, canceled, unreachable,
}
use yaagents_gateway.Llm.Sse.{fail, sse_proxy, outbound}
use yaagents_gateway.Llm.Proxy.{llm_proxy, slot, mode_sse}
use yaagents_gateway.Proxy.Roles.{enforce_roles}
use yaagents_gateway.Proxy.Forward.{
  build_proxy, upstream_handler, rbac_and_proxy, route_handler, director,
}

abbrev pub SameLogs : {X : Type 0} → World X → World X → Type 0
SameLogs s s' = (s'.metrics ≡ s.metrics) × (s'.audit_log ≡ s.audit_log)

abbrev pub KeepsLogs : {X : Type 0} → Handler (World X) → Type 0
KeepsLogs {X} h = (r : Request) (w : Writer) (s : World X) → SameLogs s (h r w s).1

module _ {X : Type 0} where
  fail-SameLogs :
      (route : String) (e : TransportError) (r : Request) (w : Writer) (s : World X)
      → SameLogs s (fail route e r w s).1
  unfolding fail
  fail-SameLogs route deadline_exceeded r w s = (refl, refl)
  fail-SameLogs route canceled r w s = (refl, refl)
  fail-SameLogs route unreachable r w s = (refl, refl)

  llm_proxy-KeepsLogs :
      (h : Handler (World X)) (route : String) → KeepsLogs h → KeepsLogs (llm_proxy h route)
  unfolding llm_proxy
  llm_proxy-KeepsLogs h route k r w s = elim (Bool-cases (slot (tenant_id r.context) s.limiter).0) [
    | inl held ↦ rw (held, llm_proxy) (k r w _)
    | inr full ↦ rw (full, llm_proxy) (refl, refl)
  ]

module _ {X : Type 0} (o : Outside X) (target : Url) (route : Route) where
  sse_proxy-KeepsLogs : KeepsLogs (sse_proxy o target route.id)
  unfolding sse_proxy
  sse_proxy-KeepsLogs r w s = elim (Result-cases (o.round_trip (outbound target r) s.outside).0) [
    | inl (resp, e) ↦ rw (e, sse_proxy) (refl, refl)
    | inr (x, e) ↦ rw (e, sse_proxy) (fail-SameLogs route.id x r w _)
  ]

  build_proxy-KeepsLogs : KeepsLogs (build_proxy o target)
  unfolding build_proxy
  build_proxy-KeepsLogs r w s = elim (Result-cases (o.round_trip (director target r) s.outside).0) [
    | inl (resp, e) ↦ rw (e, build_proxy) (refl, refl)
    | inr (x, e) ↦ rw (e, build_proxy) (refl, refl)
  ]

  upstream_handler-KeepsLogs : KeepsLogs (upstream_handler o target route)
  unfolding upstream_handler
  upstream_handler-KeepsLogs r w s = elim (Bool-cases (route.mode == mode_sse)) [
    | inl sse ↦ rw sse (llm_proxy-KeepsLogs _ route.id sse_proxy-KeepsLogs r _ s)
    | inr plain ↦ rw plain (build_proxy-KeepsLogs r w s)
  ]

  rbac_and_proxy-KeepsLogs : KeepsLogs (rbac_and_proxy o target route)
  unfolding rbac_and_proxy
  rbac_and_proxy-KeepsLogs r w s = elim (Option-cases (enforce_roles r.context route.roles)) [
    | inl all_held ↦ rw (all_held, rbac_and_proxy) (upstream_handler-KeepsLogs _ w s)
    | inr (role, missing) ↦ rw (missing, rbac_and_proxy) (refl, refl)
  ]

  pub route_handler-KeepsLogs : KeepsLogs (route_handler o target route)
  unfolding route_handler enforce_tenant
  route_handler-KeepsLogs r w s =
      elim (Bool-cases (route.tenant_required && tenant_id r.context == "")) [
        | inl refused ↦ rw refused (refl, refl)
        | inr passed ↦ rw passed (rbac_and_proxy-KeepsLogs r w s)
      ]
