-- ===== src/Metrics/Text.antt =====
-- The text that WritePrometheus makes, line by line, and the handler that serves it. `decimal` is the
-- "%d" of package fmt.
use Prim.Native.Nat.{ℕ}
use mathlib.Core.List.{Permᴰ}
use yaagents_gateway.Prelude.{
  String, Bool, true, false, List, [], ◌∷◌, ◌++◌, map, ◌≡◌, refl, arith, if◌then◌else◌, ◌==◌,
  eq_iff,
}
use yaagents_gateway.Prelude.Int.{pos}
use yaagents_gateway.Prelude.Sorting.{
  less, less_asymm, sort_by, sort_by-Permᴰ, IsOrdered, sort_by-IsOrdered,
}
use yaagents_gateway.Http.Writer.{
  Message, plain, sprintf, text, number, write_header, set_header, write_lines,
}
use yaagents_gateway.Http.Request.{Handler}
use yaagents_gateway.Metrics.{LabelKey, Metrics}

-- The order of the keys: by route, then by the text of the status.
abbrev pub before_label : (ℕ → String) → LabelKey × ℕ → LabelKey × ℕ → Bool
before_label decimal a b =
    if a.0.0 == b.0.0 then less (decimal a.0.1) (decimal b.0.1) else less a.0.0 b.0.0

abbrev pub before_route : String × ℕ → String × ℕ → Bool
before_route a b = less a.0 b.0

abbrev pub request_line : (ℕ → String) → LabelKey × ℕ → Message
request_line decimal row =
    sprintf "yaagents_gateway_requests_total{route=%q,status=%q} %d\n"
      (text row.0.0 ∷ text (decimal row.0.1) ∷ number (pos row.1) ∷ [])

abbrev pub latency_line : String × ℕ → Message
latency_line row =
    sprintf "yaagents_gateway_request_duration_ms_total{route=%q} %.3f\n"
      (text row.0 ∷ number (pos row.1) ∷ [])

abbrev request_help : List Message
request_help =
    plain "# HELP yaagents_gateway_requests_total Total proxied requests by route and HTTP status\n"
    ∷ plain "# TYPE yaagents_gateway_requests_total counter\n"
    ∷ []

abbrev latency_help : List Message
latency_help =
    plain
      "# HELP yaagents_gateway_request_duration_ms_total Total request latency in milliseconds by route\n"
    ∷ plain "# TYPE yaagents_gateway_request_duration_ms_total counter\n"
    ∷ []

-- `WritePrometheus`
unfoldable pub write_prometheus : (ℕ → String) → Metrics → List Message
unfolding sort_by
write_prometheus decimal m =
    request_help
    ++ (map (request_line decimal) (sort_by (before_label decimal) m.counts)
        ++ (latency_help ++ map latency_line (sort_by before_route m.latency_sum)))

abbrev pub metrics_type : String
metrics_type = "text/plain; version=0.0.4; charset=utf-8"

-- `Handler`
unfoldable pub serve_metrics : {W : Type 0} → (ℕ → String) → (W → Metrics) → Handler W
unfolding write_prometheus
serve_metrics decimal reg r w s = (
  write_lines (write_prometheus decimal (reg s))
      (write_header 200 (set_header "Content-Type" metrics_type w)),
  s,
)

before_label_asymm :
    (decimal : ℕ → String) (a b : LabelKey × ℕ)
    → before_label decimal a b ≡ true
    → before_label decimal b a ≡ false
before_label_asymm decimal a b h = ground (
  arith,
  eq_iff a.0.0 b.0.0,
  eq_iff b.0.0 a.0.0,
  less_asymm a.0.0 b.0.0,
  less_asymm (decimal a.0.1) (decimal b.0.1),
)

-- A text that has, between its help lines, one line for each counter and one for each sum, with its
-- value, and no other: the counters by route and then status, the sums by route.
abbrev pub IsReport : (ℕ → String) → Metrics → List Message → Type 0
IsReport decimal m lines =
    (rows : List (LabelKey × ℕ)) × (sums : List (String × ℕ)) × (lines
      ≡ request_help
        ++ (map (request_line decimal) rows ++ (latency_help ++ map latency_line sums)))
    × Permᴰ rows m.counts
    × IsOrdered (before_label decimal) rows
    × Permᴰ sums m.latency_sum
    × IsOrdered before_route sums

pub write_prometheus-IsReport :
    (decimal : ℕ → String) (m : Metrics) → IsReport decimal m (write_prometheus decimal m)
unfolding write_prometheus
write_prometheus-IsReport decimal m = (
  sort_by (before_label decimal) m.counts,
  sort_by before_route m.latency_sum,
  refl,
  sort_by-Permᴰ (before_label decimal) m.counts,
  sort_by-IsOrdered (before_label decimal) (before_label_asymm decimal) m.counts,
  sort_by-Permᴰ before_route m.latency_sum,
  sort_by-IsOrdered before_route (λ a b. less_asymm a.0 b.0) m.latency_sum,
)
