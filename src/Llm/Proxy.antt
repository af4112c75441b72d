-- ===== src/Llm/Proxy.antt =====
-- internal/llm/proxy.go: the limiter and the gauge around the event stream proxy.
pub mod Laws
use yaagents_gateway.Prelude.{String, Bool, true, false, Option, none, some}
use mathlib.Core.Option
use yaagents_gateway.Http.Context.{tenant_id}
use yaagents_gateway.Http.Writer.{Writer, ErrorBody, write_error, plain}
use yaagents_gateway.Http.Request.{Request, Handler}
use yaagents_gateway.Tenant.{trace_of}
use yaagents_gateway.Llm.Limiter.{Limiter, try_acquire, release}
use yaagents_gateway.Llm.SseMetrics.{inc, dec}
use yaagents_gateway.Llm.Sse.{note_error}
use yaagents_gateway.World.{World}

abbrev pub mode_sse : String
mode_sse = "sse"

abbrev pub limit_exceeded : Request → ErrorBody
limit_exceeded r = record {
  kind = "error";
  code = "SSE_CONCURRENCY_LIMIT_EXCEEDED";
  message = plain "too many concurrent SSE connections for this tenant";
  retry_after = 60;
  trace = trace_of r.context "";
}

-- `if lim != nil { if !lim.TryAcquire(tenantID) … }`
abbrev pub slot : String → Option Limiter → Bool × Option Limiter
slot tenant none = (true, none)
slot tenant (some l) = let (held, l') = try_acquire tenant l in (held, some l')

module _ {X : Type 0} where
  -- The deferred Dec and Release, in the order in which they run.
  abbrev pub leave : String → String → World X → World X
  leave tenant route s =
      let s₁ = record s { sse = Option.map (dec (tenant, route)) s.sse } in
      record s₁ { limiter = Option.map (release tenant) s₁.limiter }

  -- The handler once a slot is held: Inc, the stream, and the deferred calls.
  unfoldable pub stream : Handler (World X) → String → Handler (World X)
  stream raw_sse route r w s =
      let s₁ = record s { sse = Option.map (inc (tenant_id r.context, route)) s.sse } in
      let (w', s₂) = raw_sse r w s₁ in (w', leave (tenant_id r.context) route s₂)

  -- `NewProxy`
  unfoldable pub llm_proxy : Handler (World X) → String → Handler (World X)
  unfolding stream
  llm_proxy raw_sse route r w s =
      let (held, l) = slot (tenant_id r.context) s.limiter in
      let s' = record s { limiter = l } in
      elim held [
        | true ↦ stream raw_sse route r w s'
        | false ↦ (
          write_error 429 (limit_exceeded r) w,
          note_error (tenant_id r.context) route "limit_exceeded" s',
        )
      ]
