-- ===== src/Metrics.antt =====
-- internal/metrics/metrics.go: requests by route and status, and latencies by route, in whole
-- milliseconds as the caller measures them.
pub mod Laws
pub mod Text
use Prim.Native.Nat.{ℕ, ◌+◌}
use yaagents_gateway.Prelude.{String, Bool, ◌&&◌, List, [], ◌==◌, eqb}
use yaagents_gateway.Prelude.KeyMaps.{read_count, write_count}

-- The source keys by the decimal text of the status.
abbrev pub LabelKey : Type 0
LabelKey = String × ℕ

abbrev pub same_label : LabelKey → LabelKey → Bool
same_label a b = a.0 == b.0 && eqb a.1 b.1

pub record Metrics : Type 0 where
  pub counts : List (LabelKey × ℕ)
  pub latency_sum : List (String × ℕ)

abbrev pub new_metrics : Metrics
new_metrics = record { counts = []; latency_sum = [] }

unfoldable pub requests : Metrics → LabelKey → ℕ
requests m k = read_count same_label k m.counts

unfoldable pub latency : Metrics → String → ℕ
latency m route = read_count ◌==◌ route m.latency_sum

-- `Record`
unfoldable pub record_request : String → ℕ → ℕ → Metrics → Metrics
unfolding requests latency
record_request route status latency_ms m = record {
  counts = write_count same_label (route, status) (requests m (route, status) + 1) m.counts;
  latency_sum = write_count ◌==◌ route (latency m route + latency_ms) m.latency_sum;
}
