-- ===== src/Llm/Sse.antt =====
-- internal/llm/sse.go: the proxy that pipes an event stream to the client. Writes to the client do
-- not fail here; a failure of NewRequestWithContext (a malformed method) is left out.
pub mod Laws
use yaagents_gateway.Prelude.{
  String, Bool, true, false, not, ◌&&◌, ◌||◌, List, [], ◌∷◌, Option, none, some, if◌then◌else◌,
  ◌==◌,
}
use Prim.Native.Nat.{ℕ, ◌+◌}
use mathlib.Core.Option
use text.Mathlib.Text.{find?}
use yaagents_gateway.Prelude.Result.{Result, ok, err}
use yaagents_gateway.Http.Header
use yaagents_gateway.Http.Header.{Header}
use yaagents_gateway.Http.Context.{Context, correlation_id, request_id, tenant_id, with_timeout}
use yaagents_gateway.Http.Writer.{
  Writer, ErrorBody, raw, set_header, write_header, write, write_error, flush, plain,
}
use yaagents_gateway.Http.Request.{Request, Handler, with_context}
use yaagents_gateway.Tenant.{trace_of}
use yaagents_gateway.Llm.SseMetrics.{SseMetrics, error}
use yaagents_gateway.World.{
  Url, Outbound, Read, is_last, Upstream, TransportError, deadline_exceeded, canceled, unreachable,
  Outside, World,
}

-- `strings.Contains`
abbrev includes : String → String → Bool
includes s t = elim (find? s t) [ none ↦ false | some _ ↦ true ]

abbrev set_unless_empty : String → String → Header → Header
set_unless_empty key value h = if value == "" then h else Header.set h key value

-- The request to the upstream.
unfoldable pub outbound : Url → Request → Outbound
outbound upstream r =
    let h₁ = set_unless_empty "X-Request-Id" (request_id r.context) r.header in
    let h₂ = set_unless_empty "X-Correlation-Id" (correlation_id r.context) h₁ in
    record {
      method = r.method;
      url = record upstream { path = r.path; raw_query = r.raw_query };
      host = upstream.host;
      header = Header.del h₂ "Accept-Encoding";
      body = r.body;
      timeout = r.context.timeout;
    }

-- `for k, vv := range resp.Header { … w.Header().Add(k, v) }`
unfoldable pub add_all : Header → Writer → Writer
add_all [] w = w
add_all ((k, v) ∷ h) w = add_all h (record w { header = Header.add w.header k v })

-- `io.Copy(w, resp.Body)`
unfoldable pub copy_reads : List Read → Writer → Writer
copy_reads [] w = w
copy_reads (r ∷ rs) w =
    let w' = if r.bytes == "" then w else write (raw r.bytes) w in
    let rest = copy_reads rs w' in if is_last r then w' else rest

-- The loop that writes and flushes each read.
unfoldable pub pipe_reads : List Read → Writer → Writer
pipe_reads [] w = w
pipe_reads (r ∷ rs) w =
    let w' = if r.bytes == "" then w else flush (write (raw r.bytes) w) in
    let rest = pipe_reads rs w' in if is_last r then w' else rest

abbrev pub sse_headers : Writer → Writer
sse_headers w =
    set_header "X-Accel-Buffering" "no"
      (set_header "Cache-Control" "no-cache" (set_header "Content-Encoding" "identity" w))

abbrev pub is_event_stream : Upstream → Bool
is_event_stream resp = includes (Header.get resp.header "Content-Type") "text/event-stream"

-- The response's headers and status.
unfoldable pub begin_response : Upstream → Writer → Writer
begin_response resp w =
    let w₁ = add_all resp.header w in
    write_header resp.status (if is_event_stream resp then sse_headers w₁ else w₁)

-- The part of the handler behind a round trip that succeeded.
unfoldable pub respond : Upstream → Writer → Writer
respond resp w =
    let w' = begin_response resp w in
    if not (is_event_stream resp) || not w'.flusher
    then copy_reads resp.reads w'
    else pipe_reads resp.reads w'

abbrev pub note_error : {X : Type 0} → String → String → String → World X → World X
note_error tenant route kind s = record s { sse = Option.map (error (tenant, route, kind)) s.sse }

abbrev pub execution_timeout : Context → ErrorBody
execution_timeout c = record {
  kind = "error";
  code = "EXECUTION_TIMEOUT";
  message = plain "execution timeout exceeded";
  retry_after = 0;
  trace = trace_of c "";
}

-- `http.Error`; the text is followed by a newline.
abbrev http_error : String → ℕ → Writer → Writer
http_error text status w =
    let w₁ = set_header "Content-Type" "text/plain; charset=utf-8" w in
    write (raw text) (write_header status (set_header "X-Content-Type-Options" "nosniff" w₁))

module _ {X : Type 0} where
  -- The part of the handler behind a round trip that failed.
  unfoldable pub fail : String → TransportError → Request → Writer → World X → Writer × World X
  fail route deadline_exceeded r w s = (
    write_error 500 (execution_timeout r.context) w,
    note_error (tenant_id r.context) route "timeout" s,
  )
  fail route canceled r w s = (w, note_error (tenant_id r.context) route "client_disconnect" s)
  fail route unreachable r w s =
      (http_error "upstream_error" 502 w, note_error (tenant_id r.context) route "upstream_error" s)

  -- `NewSSEProxy`
  unfoldable pub sse_proxy : Outside X → Url → String → Handler (World X)
  unfolding outbound respond fail
  sse_proxy o upstream route r w s =
      let (result, x) = o.round_trip (outbound upstream r) s.outside in
      let s' = record s { outside = x } in
      elim result [ ok resp ↦ (respond resp w, s') | err e ↦ fail route e r w s' ]

-- `SSEContextTimeout`, for a duration in nanoseconds that is not negative.
unfoldable pub sse_context_timeout : {W : Type 0} → ℕ → Handler W → Handler W
sse_context_timeout d next r w s = next (with_context r (with_timeout r.context d)) w s
