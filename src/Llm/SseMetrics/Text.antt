-- ===== src/Llm/SseMetrics/Text.antt =====
-- The text that WritePrometheus makes of the gauge and the error counters, line by line.
use Prim.Native.Nat.{ℕ}
use mathlib.Core.List.{Permᴰ}
use yaagents_gateway.Prelude.{
  Bool, true, false, List, [], ◌∷◌, ◌++◌, map, ◌≡◌, refl, arith, if◌then◌else◌, ◌==◌, eq_iff,
}
use yaagents_gateway.Prelude.Int.{pos}
use yaagents_gateway.Prelude.Sorting.{
  less, less_asymm, sort_by, sort_by-Permᴰ, IsOrdered, sort_by-IsOrdered,
}
use yaagents_gateway.Http.Writer.{Message, plain, sprintf, text, number}
use yaagents_gateway.Llm.SseMetrics.{ActiveKey, ErrorKey, SseMetrics}

-- The orders of the keys.
abbrev pub before_active : ActiveKey × ℕ → ActiveKey × ℕ → Bool
before_active a b = if a.0.0 == b.0.0 then less a.0.1 b.0.1 else less a.0.0 b.0.0

abbrev pub before_error : ErrorKey × ℕ → ErrorKey × ℕ → Bool
before_error a b =
    if a.0.0 == b.0.0
    then (if a.0.1 == b.0.1 then less a.0.2 b.0.2 else less a.0.1 b.0.1)
    else less a.0.0 b.0.0

abbrev pub active_line : ActiveKey × ℕ → Message
active_line row =
    sprintf "yaagents_gateway_sse_connections_active{tenant_id=%q,route_id=%q} %d\n"
      (text row.0.0 ∷ text row.0.1 ∷ number (pos row.1) ∷ [])

abbrev pub error_line : ErrorKey × ℕ → Message
error_line row =
    sprintf "yaagents_gateway_sse_errors_total{tenant_id=%q,route_id=%q,error_kind=%q} %d\n"
      (text row.0.0 ∷ text row.0.1 ∷ text row.0.2 ∷ number (pos row.1) ∷ [])

abbrev active_help : List Message
active_help =
    plain
      "# HELP yaagents_gateway_sse_connections_active Active concurrent SSE connections by tenant and route\n"
    ∷ plain "# TYPE yaagents_gateway_sse_connections_active gauge\n"
    ∷ []

abbrev error_help : List Message
error_help =
    plain
      "# HELP yaagents_gateway_sse_errors_total SSE error events by tenant, route, and error kind\n"
    ∷ plain "# TYPE yaagents_gateway_sse_errors_total counter\n"
    ∷ []

-- `WritePrometheus`
unfoldable pub write_sse_prometheus : SseMetrics → List Message
unfolding sort_by
write_sse_prometheus m =
    active_help
    ++ (map active_line (sort_by before_active m.active)
        ++ (error_help ++ map error_line (sort_by before_error m.errors)))

before_active_asymm : (a b : ActiveKey × ℕ) → before_active a b ≡ true → before_active b a ≡ false
before_active_asymm a b h =
    ground (
      arith,
      eq_iff a.0.0 b.0.0,
      eq_iff b.0.0 a.0.0,
      less_asymm a.0.0 b.0.0,
      less_asymm a.0.1 b.0.1,
    )

before_error_asymm : (a b : ErrorKey × ℕ) → before_error a b ≡ true → before_error b a ≡ false
before_error_asymm a b h = ground (
  arith,
  eq_iff a.0.0 b.0.0,
  eq_iff b.0.0 a.0.0,
  eq_iff a.0.1 b.0.1,
  eq_iff b.0.1 a.0.1,
  less_asymm a.0.0 b.0.0,
  less_asymm a.0.1 b.0.1,
  less_asymm a.0.2 b.0.2,
)

-- A text that has, between its help lines, one line for each gauge and one for each error counter, with
-- its value, and no other, each in the ascending order of the keys.
abbrev pub IsSseReport : SseMetrics → List Message → Type 0
IsSseReport m lines =
    (gauges : List (ActiveKey × ℕ)) × (counters : List (ErrorKey × ℕ)) × (lines
      ≡ active_help ++ (map active_line gauges ++ (error_help ++ map error_line counters)))
    × Permᴰ gauges m.active
    × IsOrdered before_active gauges
    × Permᴰ counters m.errors
    × IsOrdered before_error counters

pub write_sse_prometheus-IsSseReport : (m : SseMetrics) → IsSseReport m (write_sse_prometheus m)
unfolding write_sse_prometheus
write_sse_prometheus-IsSseReport m = (
  sort_by before_active m.active,
  sort_by before_error m.errors,
  refl,
  sort_by-Permᴰ before_active m.active,
  sort_by-IsOrdered before_active before_active_asymm m.active,
  sort_by-Permᴰ before_error m.errors,
  sort_by-IsOrdered before_error before_error_asymm m.errors,
)
