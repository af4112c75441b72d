-- ===== src/Proxy/Forward/Relay.antt =====
-- What an admitted request gets of the upstream, and how long it may take.
use Prim.Native.Nat.{ℕ, ◌+◌, ◌*◌, ◌<◌}
use yaagents_gateway.Prelude.{
  true, false, ◌||◌, Option, none, some, ◌++◌, ◌≡◌, refl, ap, ◌∙◌, arith, ◌==◌,
}
use yaagents_gateway.Prelude.Int.{pos, is_nonpos, seconds_fits, longer_fits}
use yaagents_gateway.Prelude.Result.{Result, ok, err}
use yaagents_gateway.Http.Writer.{Writer, status_of, write_header}
use yaagents_gateway.Http.Request.{Request}
use yaagents_gateway.Http.Laws.{write_error_lem}
use yaagents_gateway.Routes.{Route}
use yaagents_gateway.Llm.Sse.{add_all}
use yaagents_gateway.Llm.Sse.Laws.{
  delivered, copied, copy_reads-body, copy_reads-status, copy_reads-aborted, add_all-keeps,
}
use yaagents_gateway.Llm.Proxy.{mode_sse}
use yaagents_gateway.World.{
  Upstream, TransportError, deadline_exceeded, canceled, unreachable, body_failed,
}
use yaagents_gateway.Proxy.Forward.{pass_on, error_handler, deadline}

-- What the client gets of a round trip that the reverse proxy made: the upstream's status and body,
-- the connection cut where the body failed, or an error of the gateway.
abbrev pub IsRelayed : Result TransportError Upstream → Writer → Writer → Type 0
IsRelayed (ok resp) w w' =
    (status_of w' ≡ some resp.status)
    × (w'.body ≡ w.body ++ copied (delivered resp.reads))
    × (w'.aborted ≡ (w.aborted || body_failed resp.reads))
IsRelayed (err deadline_exceeded) w w' = status_of w' ≡ some 500
IsRelayed (err _) w w' = status_of w' ≡ some 502

pub pass_on-IsRelayed :
    (resp : Upstream) (w : Writer) → w.sent ≡ none → IsRelayed (ok resp) w (pass_on resp w)
unfolding pass_on write_header
pass_on-IsRelayed resp w unsent =
    let begun = write_header resp.status (add_all resp.header w) in
    let kept = add_all-keeps resp.header w in
    (
      copy_reads-status resp.reads begun resp.status (rw (kept.2, unsent) refl),
      copy_reads-body resp.reads begun ∙ ap (λ b. b ++ copied (delivered resp.reads)) kept.1,
      ap (λ b. b || body_failed resp.reads) (copy_reads-aborted resp.reads begun ∙ kept.4),
    )

pub error_handler-IsRelayed :
    (e : TransportError) (r : Request) (w : Writer)
    → w.sent ≡ none
    → IsRelayed (err e) w (error_handler e r w)
unfolding error_handler
error_handler-IsRelayed deadline_exceeded r w unsent = (write_error_lem 500 _ w unsent).0
error_handler-IsRelayed canceled r w unsent = (write_error_lem 502 _ w unsent).0
error_handler-IsRelayed unreachable r w unsent = (write_error_lem 502 _ w unsent).0

not_nonpos : (n : ℕ) → 0 < n → is_nonpos (pos n) ≡ false
not_nonpos n h = ground arith

-- The nanoseconds that a request has at the upstream: none where the route has no timeout; the route's
-- seconds, and 30 more for a stream, where an int64 holds them.
abbrev pub HasTimeout : Route → Option ℕ → Type 0
HasTimeout route t =
    (is_nonpos route.execution_timeout_seconds ≡ true → t ≡ none)
    × ((n : ℕ)
        → route.execution_timeout_seconds ≡ pos n
        → 0 < n
        → ((route.mode == mode_sse) ≡ false
            → n * 1000000000 < 9223372036854775808
            → t ≡ some (n * 1000000000))
          × ((route.mode == mode_sse) ≡ true
              → n * 1000000000 + 30000000000 < 9223372036854775808
              → t ≡ some (n * 1000000000 + 30000000000)))

pub deadline-HasTimeout : (route : Route) → HasTimeout route (deadline route)
unfolding deadline
deadline-HasTimeout route = (
  λ off. rw off refl,
  λ n given some_time. (
    λ plain short. rw (given, not_nonpos n some_time, plain, seconds_fits n short) refl,
    λ sse short.
        let fits : n * 1000000000 < 9223372036854775808 = omega (arith, short) in
        rw
          (given, not_nonpos n some_time, sse, seconds_fits n fits, longer_fits 30000000000 _ short)
          refl,
  ),
)
