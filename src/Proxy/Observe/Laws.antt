-- ===== src/Proxy/Observe/Laws.antt =====
-- What the dispatcher records of a request.
use Prim.Native.Nat.{ℕ}
use yaagents_gateway.Prelude.{
  String, true, false, ◌≡◌, refl, Option, inl, inr, if◌then◌else◌, Bool-cases, ◌++◌, ◌∙◌,
}
use mathlib.Core.Option
use yaagents_gateway.Http.Writer.{Writer, status_of}
use yaagents_gateway.Http.Request.{Request}
use yaagents_gateway.Routes.{Route}
use yaagents_gateway.Llm.Sse.{respond, is_event_stream}
use yaagents_gateway.Llm.Sse.Laws.{delivered, copied, respond-body}
use yaagents_gateway.Metrics.{Metrics, record_request}
use yaagents_gateway.Audit.{log_event}
use yaagents_gateway.World.{Upstream, World}
use yaagents_gateway.Proxy.Observe.{recorder, audit_event, audit, or_ok}
use yaagents_gateway.Proxy.Observe.Frame.{SameLogs}

-- The status of the final response, 200 if the handler sent none.
abbrev pub seen_status : Writer → ℕ
seen_status w = or_ok (status_of w)

-- What the dispatcher has to add to the logs for a response `w` and the moments `ms` and `t`.
abbrev pub Observed :
    {X : Type 0} → Route → Request → World X → Writer × World X → ℕ → String → Type 0
Observed route r s (w, s') ms t =
    (s'.metrics ≡ Option.map (record_request route.id (seen_status w) ms) s.metrics)
    × (s'.audit_log ≡ (
        if route.audit
        then Option.map (log_event (audit_event route r t (seen_status w) ms)) s.audit_log
        else s.audit_log))

-- What is recorded of a request, by whether its handler came back.
abbrev pub IsRecorded : {X : Type 0} → Route → Request → World X → Writer × World X → Type 0
IsRecorded route r s out =
    (out.0.aborted ≡ false → (ms : ℕ) × (t : String) × Observed route r s out ms t)
    × (out.0.aborted ≡ true → SameLogs s out.1)

-- Under the dispatcher's recorder the body of an event stream is copied like any other: no flush
-- follows a read, whether or not the writer below can flush.
respond-recorder :
    (resp : Upstream) (w : Writer)
    → (respond resp (recorder w)).body ≡ w.body ++ copied (delivered resp.reads)
respond-recorder resp w =
    respond-body resp (recorder w)
    ∙ elim (Bool-cases (is_event_stream resp)) [ inl sse ↦ rw sse refl | inr plain ↦ rw plain refl ]
