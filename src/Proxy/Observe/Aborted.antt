-- ===== src/Proxy/Observe/Aborted.antt =====
-- When a handler of the dispatcher panics: only where a body of the upstream failed.
use Prim.Native.Nat.{ℕ}
use yaagents_gateway.Prelude.{
  String, true, false, List, [], ◌∷◌, ◌≡◌, refl, ap, ◌∙◌, inl, inr, arith, ◌||◌, ◌&&◌, ◌==◌,
  Bool-cases, Option-cases,
}
use yaagents_gateway.Prelude.Result.{ok, Result-cases}
use yaagents_gateway.Http.Context.{tenant_id}
use yaagents_gateway.Http.Writer.{Writer, ErrorBody, raw, write, write_header, write_error, flush}
use yaagents_gateway.Http.Request.{Request, Handler}
use yaagents_gateway.Routes.{Route}
use yaagents_gateway.Tenant.{enforce_tenant}
use yaagents_gateway.Llm.Sse.{
  pipe_reads, begin_response, respond, fail, sse_proxy, outbound, is_event_stream,
}
use yaagents_gateway.Llm.Sse.Laws.{copy_reads-aborted, add_all-keeps}
use yaagents_gateway.Llm.Proxy.{llm_proxy, slot, stream, mode_sse}
use yaagents_gateway.World.{
  Url, Outbound, Read, Upstream, Outside, World, TransportError, deadline_exceeded, canceled,
  unreachable, body_failed,
}
use yaagents_gateway.Proxy.Roles.{enforce_roles}
use yaagents_gateway.Proxy.Forward.{
  pass_on, error_handler, build_proxy, upstream_handler, rbac_and_proxy, route_handler, director,
  modify_response,
}

write_error-aborted :
    (status : ℕ) (e : ErrorBody) (w : Writer) → (write_error status e w).aborted ≡ w.aborted
unfolding write_error
write_error-aborted status e w = refl

pipe_reads-aborted : (rs : List Read) (w : Writer) → (pipe_reads rs w).aborted ≡ w.aborted
unfolding pipe_reads flush write write_header
pipe_reads-aborted [] w = refl
pipe_reads-aborted (r ∷ rs) w =
    ground (arith, pipe_reads-aborted rs w, pipe_reads-aborted rs (flush (write (raw r.bytes) w)))

begin_response-aborted :
    (resp : Upstream) (w : Writer) → (begin_response resp w).aborted ≡ w.aborted
unfolding begin_response write_header
begin_response-aborted resp w = elim (Bool-cases (is_event_stream resp)) [
  | inl sse ↦ rw sse (add_all-keeps resp.header w).4
  | inr plain ↦ rw plain (add_all-keeps resp.header w).4
]

respond-aborted : (resp : Upstream) (w : Writer) → (respond resp w).aborted ≡ w.aborted
unfolding respond
respond-aborted resp w = ground (
  arith,
  begin_response-aborted resp w,
  copy_reads-aborted resp.reads (begin_response resp w),
  pipe_reads-aborted resp.reads (begin_response resp w),
)

pass_on-aborted :
    (resp : Upstream) (w : Writer)
    → (pass_on resp w).aborted ≡ (w.aborted || body_failed resp.reads)
unfolding pass_on write_header
pass_on-aborted resp w =
    ap (λ b. b || body_failed resp.reads)
      (copy_reads-aborted resp.reads _ ∙ (add_all-keeps resp.header w).4)

error_handler-aborted :
    (e : TransportError) (r : Request) (w : Writer) → (error_handler e r w).aborted ≡ w.aborted
unfolding error_handler
error_handler-aborted deadline_exceeded r w = write_error-aborted 500 _ w
error_handler-aborted canceled r w = write_error-aborted 502 _ w
error_handler-aborted unreachable r w = write_error-aborted 502 _ w

fail-aborted :
    {X : Type 0} (route : String) (e : TransportError) (r : Request) (w : Writer) (s : World X)
    → (fail route e r w s).0.aborted ≡ w.aborted
unfolding fail write write_header
fail-aborted route deadline_exceeded r w s = write_error-aborted 500 _ w
fail-aborted route canceled r w s = refl
fail-aborted route unreachable r w s = refl

module _ {X : Type 0} (o : Outside X) where
  -- Some round trip came back with a body that fails.
  abbrev pub HasFailedBody : Type 0
  HasFailedBody =
      (q : Outbound) × (x : X) × (resp : Upstream) × ((o.round_trip q x).0 ≡ ok resp)
      × (body_failed resp.reads ≡ true)

  abbrev pub AbortsOnFailure : Handler (World X) → Type 0
  AbortsOnFailure h =
      (r : Request) (w : Writer) (s : World X)
      → w.aborted ≡ false
      → (h r w s).0.aborted ≡ true
      → HasFailedBody

  module _ (target : Url) (route : Route) where
    sse_proxy-aborted :
        (r : Request) (w : Writer) (s : World X)
        → (sse_proxy o target route.id r w s).0.aborted ≡ w.aborted
    unfolding sse_proxy
    sse_proxy-aborted r w s = elim (Result-cases (o.round_trip (outbound target r) s.outside).0) [
      | inl (resp, e) ↦ rw (e, sse_proxy) (respond-aborted resp w)
      | inr (x, e) ↦ rw (e, sse_proxy) (fail-aborted route.id x r w _)
    ]

    llm_proxy-aborted :
        (r : Request) (w : Writer) (s : World X)
        → (llm_proxy (sse_proxy o target route.id) route.id r w s).0.aborted ≡ w.aborted
    unfolding llm_proxy stream
    llm_proxy-aborted r w s = elim (Bool-cases (slot (tenant_id r.context) s.limiter).0) [
      | inl held ↦ rw (held, llm_proxy) (sse_proxy-aborted r w _)
      | inr full ↦ rw (full, llm_proxy) (write_error-aborted 429 _ w)
    ]

    build_proxy-AbortsOnFailure : AbortsOnFailure (build_proxy o target)
    unfolding build_proxy
    build_proxy-AbortsOnFailure r w s whole cut =
        elim (Result-cases (o.round_trip (director target r) s.outside).0) [
          | inl (resp, e) ↦ (
            director target r,
            s.outside,
            resp,
            e,
            ground (arith, rw (e, build_proxy) at cut, pass_on-aborted (modify_response resp) w),
          )
          | inr (x, e) ↦
              absurd (ground (arith, rw (e, build_proxy) at cut, error_handler-aborted x r w))
        ]

    upstream_handler-AbortsOnFailure : AbortsOnFailure (upstream_handler o target route)
    unfolding upstream_handler
    upstream_handler-AbortsOnFailure r w s whole cut = elim (Bool-cases (route.mode == mode_sse)) [
      | inl sse ↦ absurd (cc (llm_proxy-aborted r _ s, rw sse at cut, whole))
      | inr plain ↦ build_proxy-AbortsOnFailure r w s whole (rw plain at cut)
    ]

    rbac_and_proxy-AbortsOnFailure : AbortsOnFailure (rbac_and_proxy o target route)
    unfolding rbac_and_proxy
    rbac_and_proxy-AbortsOnFailure r w s whole cut =
        elim (Option-cases (enforce_roles r.context route.roles)) [
          | inl held ↦
              upstream_handler-AbortsOnFailure _ w s whole (rw (held, rbac_and_proxy) at cut)
          | inr (role, missing) ↦
              absurd (cc (rw (missing, rbac_and_proxy) at cut, write_error-aborted 403 _ w, whole))
        ]

    pub route_handler-AbortsOnFailure : AbortsOnFailure (route_handler o target route)
    unfolding route_handler enforce_tenant
    route_handler-AbortsOnFailure r w s whole cut =
        elim (Bool-cases (route.tenant_required && tenant_id r.context == "")) [
          | inl refused ↦ absurd (cc (rw refused at cut, write_error-aborted 403 _ w, whole))
          | inr passed ↦ rbac_and_proxy-AbortsOnFailure r w s whole (rw passed at cut)
        ]
