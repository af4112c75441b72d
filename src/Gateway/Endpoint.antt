-- ===== src/Gateway/Endpoint.antt =====
-- cmd/gateway/main.go: the handler of GET /metrics.
use Prim.Native.Nat.{ℕ}
use yaagents_gateway.Prelude.{String, List, [], ◌∷◌, ◌++◌, map, none, some, ◌≡◌, refl, sym, ap, ◌∙◌}
use mathlib.Core.List.{append_assoc, map-append, append-nil}
use yaagents_gateway.Http.Header
use yaagents_gateway.Http.Writer.{
  Writer, Sent, Message, formatted, write, write_header, write_lines, set_header,
}
use yaagents_gateway.Http.Request.{Request, Handler}
use yaagents_gateway.Metrics.{Metrics}
use yaagents_gateway.Metrics.Text.{
  metrics_type, write_prometheus, IsReport, write_prometheus-IsReport,
}
use yaagents_gateway.Llm.SseMetrics.{SseMetrics}
use yaagents_gateway.Llm.SseMetrics.Text.{
  write_sse_prometheus, IsSseReport, write_sse_prometheus-IsSseReport,
}

-- The handler of /metrics, over the two registries in the state.
unfoldable pub handle_metrics :
    {W : Type 0} → (ℕ → String) → (W → Metrics) → (W → SseMetrics) → Handler W
unfolding write_prometheus write_sse_prometheus
handle_metrics decimal reg sse r w s = (
  write_lines (write_sse_prometheus (sse s)) (
      write_lines (write_prometheus decimal (reg s))
        (write_header 200 (set_header "Content-Type" metrics_type w))),
  s,
)

write_lines_lem :
    (ms : List Message) (w : Writer) (sent : Sent)
    → w.sent ≡ some sent
    → ((write_lines ms w).sent ≡ some sent) × ((write_lines ms w).body ≡ w.body ++ map formatted ms)
unfolding write_lines
write_lines_lem [] w sent there = (there, sym (append-nil w.body))
write_lines_lem (m ∷ ms) w sent there =
    let (kept, body) = write_lines_lem ms (write (formatted m) w) sent (rw there refl) in
    (kept, body ∙ append_assoc w.body (formatted m ∷ []) (map formatted ms))

-- The endpoint changes nothing and, where nothing was sent yet, answers 200 as plain text, with a
-- report of the counters and then one of the streams, each with one line for every key, in their
-- order.
pub handle_metrics_lem :
    {W : Type 0} (decimal : ℕ → String) (reg : W → Metrics) (sse : W → SseMetrics) (r : Request)
    (w : Writer) (s : W)
    → w.sent ≡ none
    → (counters : List Message) × (streams : List Message) × IsReport decimal (reg s) counters
      × IsSseReport (sse s) streams
      × ((handle_metrics decimal reg sse r w s).0.sent
          ≡ some
              (record { status = 200; header = Header.set w.header "Content-Type" metrics_type }))
      × ((handle_metrics decimal reg sse r w s).0.body
          ≡ w.body ++ map formatted (counters ++ streams))
      × ((handle_metrics decimal reg sse r w s).1 ≡ s)
unfolding handle_metrics write_header
handle_metrics_lem decimal reg sse r w s unsent =
    let counters = write_prometheus decimal (reg s) in
    let streams = write_sse_prometheus (sse s) in
    let start = write_header 200 (set_header "Content-Type" metrics_type w) in
    let (first, above) = write_lines_lem counters start _ (rw unsent refl) in
    let (sent, below) = write_lines_lem streams (write_lines counters start) _ first in
    (
      counters,
      streams,
      write_prometheus-IsReport decimal (reg s),
      write_sse_prometheus-IsSseReport (sse s),
      sent,
      below
          ∙ ap (λ b. b ++ map formatted streams) above
          ∙ append_assoc w.body (map formatted counters) (map formatted streams)
          ∙ ap (λ b. w.body ++ b) (sym (map-append formatted counters streams)),
      refl,
    )
