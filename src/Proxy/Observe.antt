-- ===== src/Proxy/Observe.antt =====
-- `responseRecorder` and `observeHandler`. The recorder embeds the interface http.ResponseWriter, so
-- the handler inside finds no http.Flusher in it; the status that it notes is in the writer's field.
pub mod Laws
pub mod Tracked
pub mod Frame
pub mod Aborted
use Prim.Native.Nat.{ℕ, ◌-◌}
use yaagents_gateway.Prelude.{String, Bool, true, false, List, Option, none, some, if◌then◌else◌}
use mathlib.Core.Option
use yaagents_gateway.Http.Context.{tenant_id, actor_subject, correlation_id, request_id}
use yaagents_gateway.Http.Writer.{Writer}
use yaagents_gateway.Http.Request.{Request, Handler}
use yaagents_gateway.Routes.{Route}
use yaagents_gateway.Metrics.{record_request}
use yaagents_gateway.Audit.{Event, log_event}
use yaagents_gateway.World.{World, Outside}

-- `&responseRecorder{ResponseWriter: w, code: http.StatusOK}`
abbrev pub recorder : Writer → Writer
recorder w = record w { flusher = false; noted = none }

abbrev pub or_ok : Option ℕ → ℕ
or_ok none = 200
or_ok (some code) = code

-- `rr.code`
abbrev pub recorded_code : Writer → ℕ
recorded_code rr = or_ok rr.noted

-- The writer that the recorder wraps, after the handler ran.
abbrev pub unwrap : Writer → Writer → Writer
unwrap outer rr = record rr { flusher = outer.flusher; noted = outer.noted }

abbrev pub audit_event : Route → Request → String → ℕ → ℕ → Event
audit_event route r timestamp code latency = record {
  timestamp = timestamp;
  route_id = route.id;
  method = r.method;
  path = r.path;
  tenant_id = tenant_id r.context;
  actor_subject = actor_subject r.context;
  status_code = code;
  latency_ms = latency;
  correlation_id = correlation_id r.context;
  request_id = request_id r.context;
}

module _ {X : Type 0} (o : Outside X) where
  -- The audit branch: the clock is read only where an event is logged.
  unfoldable pub audit : Route → Request → ℕ → ℕ → World X → World X
  audit route r code latency s = elim s.audit_log [
    | none ↦ s
    | some events ↦
        if route.audit
        then (let (t, x) = o.timestamp s.outside in
            record s {
              audit_log = some (log_event (audit_event route r t code latency) events);
              outside = x;
            })
        else s
  ]

  -- What observeHandler does after the call of the handler, which came back with `rr` at `start`.
  unfoldable pub record_response : Route → Request → Writer → ℕ → World X → World X
  unfolding audit
  record_response route r rr start s₁ =
      let (stop, x₂) = o.now_ms s₁.outside in
      let latency = stop - start in
      let s₂ = record s₁ {
        metrics = Option.map (record_request route.id (recorded_code rr) latency) s₁.metrics;
        outside = x₂;
      } in
      audit route r (recorded_code rr) latency s₂

  -- A panic of the handler leaves observeHandler, which defers nothing, as well.
  unfoldable pub observe_handler : Handler (World X) → Route → Handler (World X)
  unfolding record_response
  observe_handler h route r w s =
      let (start, x₁) = o.now_ms s.outside in
      let (rr, s₁) = h r (recorder w) (record s { outside = x₁ }) in
      (unwrap w rr, if rr.aborted then s₁ else record_response route r rr start s₁)
