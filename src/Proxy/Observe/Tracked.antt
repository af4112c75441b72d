-- ===== src/Proxy/Observe/Tracked.antt =====
-- Every handler of the dispatcher keeps the recorder in step with the response.
use yaagents_gateway.Prelude.{
  String, List, [], ◌∷◌, inl, inr, if◌then◌else◌, Bool-cases, Option-cases, ◌==◌, ◌&&◌,
}
use yaagents_gateway.Prelude.Result.{Result-cases}
use yaagents_gateway.Http.Header
use yaagents_gateway.Http.Context.{tenant_id}
use yaagents_gateway.Http.Header.{Header}
use yaagents_gateway.Http.Writer.{Writer, raw, write}
use yaagents_gateway.Http.Request.{Request, Handler}
use yaagents_gateway.Http.Tracked.{
  IsTracked, write_header-IsTracked, write-IsTracked, flush-IsTracked, write_error-IsTracked,
  if-IsTracked,
}
use yaagents_gateway.Routes.{Route}
use yaagents_gateway.Tenant.{enforce_tenant}
use yaagents_gateway.World.{
  Url, Read, is_last, Upstream, Outside, World, TransportError, deadline_exceeded, canceled,
  unreachable,
}
use yaagents_gateway.Llm.Sse.{
  add_all, copy_reads, pipe_reads, begin_response, respond, fail, sse_proxy, is_event_stream,
  sse_headers, outbound,
}
use yaagents_gateway.Llm.Proxy.{llm_proxy, slot, mode_sse}
use yaagents_gateway.Proxy.Roles.{enforce_roles}
use yaagents_gateway.Proxy.Forward.{
  pass_on, error_handler, build_proxy, upstream_handler, rbac_and_proxy, route_handler,
  modify_response, director,
}

add_all-IsTracked : (h : Header) (w : Writer) → IsTracked w → IsTracked (add_all h w)
unfolding add_all
add_all-IsTracked [] w t = t
add_all-IsTracked ((k, v) ∷ h) w t =
    add_all-IsTracked h (record w { header = Header.add w.header k v }) t

one_read-IsTracked :
    (r : Read) (w v : Writer)
    → IsTracked w
    → (IsTracked w → IsTracked v)
    → IsTracked (if r.bytes == "" then w else v)
one_read-IsTracked r w v t k = if-IsTracked (r.bytes == "") w v t (k t)

copy_reads-IsTracked : (rs : List Read) (w : Writer) → IsTracked w → IsTracked (copy_reads rs w)
unfolding copy_reads
copy_reads-IsTracked [] w t = t
copy_reads-IsTracked (r ∷ rs) w t =
    let here = one_read-IsTracked r w _ t (write-IsTracked (raw r.bytes) w) in
    if-IsTracked (is_last r) _ _ here (copy_reads-IsTracked rs _ here)

pipe_reads-IsTracked : (rs : List Read) (w : Writer) → IsTracked w → IsTracked (pipe_reads rs w)
unfolding pipe_reads
pipe_reads-IsTracked [] w t = t
pipe_reads-IsTracked (r ∷ rs) w t =
    let here =
      one_read-IsTracked r w _ t
        (λ h. flush-IsTracked (write (raw r.bytes) w) (write-IsTracked (raw r.bytes) w h)) in
    if-IsTracked (is_last r) _ _ here (pipe_reads-IsTracked rs _ here)

begin_response-IsTracked :
    (resp : Upstream) (w : Writer) → IsTracked w → IsTracked (begin_response resp w)
unfolding begin_response
begin_response-IsTracked resp w t =
    let h = add_all-IsTracked resp.header w t in
    write_header-IsTracked resp.status _ (
      if-IsTracked (is_event_stream resp) (sse_headers (add_all resp.header w))
        (add_all resp.header w) h h)

respond-IsTracked : (resp : Upstream) (w : Writer) → IsTracked w → IsTracked (respond resp w)
unfolding respond
respond-IsTracked resp w t =
    let h = begin_response-IsTracked resp w t in
    if-IsTracked _ _ _ (copy_reads-IsTracked resp.reads _ h) (pipe_reads-IsTracked resp.reads _ h)

pass_on-IsTracked : (resp : Upstream) (w : Writer) → IsTracked w → IsTracked (pass_on resp w)
unfolding pass_on
pass_on-IsTracked resp w t =
    copy_reads-IsTracked resp.reads _
      (write_header-IsTracked resp.status _ (add_all-IsTracked resp.header w t))

error_handler-IsTracked :
    (e : TransportError) (r : Request) (w : Writer) → IsTracked w → IsTracked (error_handler e r w)
unfolding error_handler
error_handler-IsTracked deadline_exceeded r w t = write_error-IsTracked 500 _ w t
error_handler-IsTracked canceled r w t = write_error-IsTracked 502 _ w t
error_handler-IsTracked unreachable r w t = write_error-IsTracked 502 _ w t

abbrev pub KeepsTrack : {X : Type 0} → Handler (World X) → Type 0
KeepsTrack {X} h = (r : Request) (w : Writer) (s : World X) → IsTracked w → IsTracked (h r w s).0

module _ {X : Type 0} where
  fail-IsTracked :
      (route : String) (e : TransportError) (r : Request) (w : Writer) (s : World X)
      → IsTracked w
      → IsTracked (fail route e r w s).0
  unfolding fail
  fail-IsTracked route deadline_exceeded r w s t = write_error-IsTracked 500 _ w t
  fail-IsTracked route canceled r w s t = t
  fail-IsTracked route unreachable r w s t = write-IsTracked _ _ (write_header-IsTracked 502 _ t)

  llm_proxy-KeepsTrack :
      (h : Handler (World X)) (route : String) → KeepsTrack h → KeepsTrack (llm_proxy h route)
  unfolding llm_proxy
  llm_proxy-KeepsTrack h route k r w s t =
      elim (Bool-cases (slot (tenant_id r.context) s.limiter).0) [
        | inl held ↦ rw (held, llm_proxy) (k r w _ t)
        | inr full ↦ rw (full, llm_proxy) (write_error-IsTracked 429 _ w t)
      ]

module _ {X : Type 0} (o : Outside X) (target : Url) (route : Route) where
  sse_proxy-KeepsTrack : KeepsTrack (sse_proxy o target route.id)
  unfolding sse_proxy
  sse_proxy-KeepsTrack r w s t =
      elim (Result-cases (o.round_trip (outbound target r) s.outside).0) [
        | inl (resp, e) ↦ rw (e, sse_proxy) (respond-IsTracked resp w t)
        | inr (x, e) ↦ rw (e, sse_proxy) (fail-IsTracked route.id x r w _ t)
      ]

  build_proxy-KeepsTrack : KeepsTrack (build_proxy o target)
  unfolding build_proxy
  build_proxy-KeepsTrack r w s t =
      elim (Result-cases (o.round_trip (director target r) s.outside).0) [
        | inl (resp, e) ↦ rw (e, build_proxy) (pass_on-IsTracked (modify_response resp) w t)
        | inr (x, e) ↦ rw (e, build_proxy) (error_handler-IsTracked x r w t)
      ]

  upstream_handler-KeepsTrack : KeepsTrack (upstream_handler o target route)
  unfolding upstream_handler
  upstream_handler-KeepsTrack r w s t = elim (Bool-cases (route.mode == mode_sse)) [
    | inl sse ↦ rw sse (llm_proxy-KeepsTrack _ route.id sse_proxy-KeepsTrack r _ s t)
    | inr plain ↦ rw plain (build_proxy-KeepsTrack r w s t)
  ]

  rbac_and_proxy-KeepsTrack : KeepsTrack (rbac_and_proxy o target route)
  unfolding rbac_and_proxy
  rbac_and_proxy-KeepsTrack r w s t = elim (Option-cases (enforce_roles r.context route.roles)) [
    | inl all_held ↦ rw (all_held, rbac_and_proxy) (upstream_handler-KeepsTrack _ w s t)
    | inr (role, missing) ↦ rw (missing, rbac_and_proxy) (write_error-IsTracked 403 _ w t)
  ]

  pub route_handler-KeepsTrack : KeepsTrack (route_handler o target route)
  unfolding route_handler enforce_tenant
  route_handler-KeepsTrack r w s t =
      elim (Bool-cases (route.tenant_required && tenant_id r.context == "")) [
        | inl refused ↦ rw refused (write_error-IsTracked 403 _ w t)
        | inr passed ↦ rw passed (rbac_and_proxy-KeepsTrack r w s t)
      ]
