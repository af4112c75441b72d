-- ===== src/Llm/SseMetrics.antt =====
-- internal/llm/metrics.go: the gauge of active streams and the error counters.
pub mod Laws
pub mod Text
use Prim.Native.Nat.{ℕ, ◌+◌, ◌-◌}
use yaagents_gateway.Prelude.{String, Bool, ◌&&◌, List, [], leb, if◌then◌else◌, ◌==◌}
use yaagents_gateway.Prelude.KeyMaps.{read_count, write_count, drop_count}

-- (tenant, route) and (tenant, route, error kind)
abbrev pub ActiveKey : Type 0
ActiveKey = String × String

abbrev pub ErrorKey : Type 0
ErrorKey = String × String × String

abbrev pub same_active : ActiveKey → ActiveKey → Bool
same_active a b = a.0 == b.0 && a.1 == b.1

abbrev pub same_error : ErrorKey → ErrorKey → Bool
same_error a b = a.0 == b.0 && (a.1 == b.1 && a.2 == b.2)

pub record SseMetrics : Type 0 where
  pub active : List (ActiveKey × ℕ)
  pub errors : List (ErrorKey × ℕ)

abbrev pub new_sse_metrics : SseMetrics
new_sse_metrics = record { active = []; errors = [] }

-- `ActiveCount`, `ErrorCount`
unfoldable pub active_count : SseMetrics → ActiveKey → ℕ
active_count m k = read_count same_active k m.active

unfoldable pub error_count : SseMetrics → ErrorKey → ℕ
error_count m k = read_count same_error k m.errors

-- `Inc`
unfoldable pub inc : ActiveKey → SseMetrics → SseMetrics
unfolding active_count
inc k m = record m { active = write_count same_active k (active_count m k + 1) m.active }

-- `Dec`: a count that would fall to 0 or below is removed.
unfoldable pub dec : ActiveKey → SseMetrics → SseMetrics
unfolding active_count
dec k m =
    if leb (active_count m k) 1
    then record m { active = drop_count same_active k m.active }
    else record m { active = write_count same_active k (active_count m k - 1) m.active }

-- `Error`
unfoldable pub error : ErrorKey → SseMetrics → SseMetrics
unfolding error_count
error k m = record m { errors = write_count same_error k (error_count m k + 1) m.errors }
