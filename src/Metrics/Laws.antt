-- ===== src/Metrics/Laws.antt =====
-- What one observation changes.
use Prim.Native.Nat.{ℕ, ◌+◌}
use yaagents_gateway.Prelude.{String, ◌≡◌, ◌↔◌, true, arith, ◌==◌, eq_iff, if◌then◌else◌}
use yaagents_gateway.Prelude.KeyMaps.{read-write}
use yaagents_gateway.Metrics.{LabelKey, Metrics, same_label, requests, latency, record_request}

same_label_iff : (a b : LabelKey) → (same_label a b ≡ true) ↔ (a ≡ b)
same_label_iff a b = ground (arith, eq_iff a.0 b.0)

-- One observation counts one request under its route and status and adds its latency to the route;
-- every other count and sum stays.
record_request_lem :
    (route : String) (status ms : ℕ) (m : Metrics) (k : LabelKey) (other : String)
    → (requests (record_request route status ms m) k
        ≡ (if same_label (route, status) k then requests m (route, status) + 1 else requests m k))
      × (latency (record_request route status ms m) other
          ≡ (if route == other then latency m route + ms else latency m other))
unfolding record_request
record_request_lem route status ms m k other = (
  read-write same_label same_label_iff (route, status) k _ m.counts,
  read-write ◌==◌ eq_iff route other _ m.latency_sum,
)
