-- ===== src/Tests/Down.antt =====
-- The theorems on the shutdown, at one run of it, and on the metrics endpoint.
use Prim.Native.Nat.{ℕ}
use yaagents_gateway.Prelude.{true, false, List, [], ◌∷◌, ◌++◌, map, reverse, some, ◌≡◌, refl}
use yaagents_gateway.Http.Header
use yaagents_gateway.Http.Writer.{Writer, Message, fresh, formatted}
use yaagents_gateway.Plugin.Contract.{Plugin}
use yaagents_gateway.Metrics.{Metrics, new_metrics, record_request}
use yaagents_gateway.Metrics.Text.{metrics_type, IsReport}
use yaagents_gateway.Llm.SseMetrics.{SseMetrics, new_sse_metrics}
use yaagents_gateway.Llm.SseMetrics.Text.{IsSseReport}
use yaagents_gateway.Gateway.Endpoint.{handle_metrics, handle_metrics_lem}
use yaagents_gateway.Gateway.Shutdown.{
  Server, gated, draining, finished, listening, lets_in, pass_gate, start_shutdown,
  shut_plugin_down, Move, Run, arrive, pass, signal, close, complete, stop_plugin, finish, here,
  next,
}
use yaagents_gateway.Gateway.Shutdown.Gate.{admitted, gate_stays, exit_cuts_off}
use yaagents_gateway.Gateway.Shutdown.Order.{shutdown_sequence, names_down}
use yaagents_gateway.Tests.Boot.{two_plugins, counting}
use yaagents_gateway.Tests.Fixtures.{visit}

-- One request was accepted before the signal, and comes to the gate behind it.
abbrev signalled : Server ℕ
signalled = record (listening 1) { at_gate = 1; shutting_down = true; drain = gated }

-- srv.Shutdown has returned.
abbrev emptied : Server ℕ
emptied =
    start_shutdown two_plugins false
      (record (listening 1) { shutting_down = true; drain = draining; turned_away = 1 })

abbrev validator_left : List (Plugin ℕ)
validator_left = counting "token-validator" ∷ []

abbrev one_down : Server ℕ
one_down = shut_plugin_down (counting "cors") validator_left emptied

abbrev all_down : Server ℕ
all_down = record (shut_plugin_down (counting "token-validator") [] one_down) { drain = finished }

ended : Run two_plugins signalled one_down
unfolding lets_in pass_gate start_shutdown shut_plugin_down
ended =
    next
      (next (next (next here (pass visit 0 refl refl)) (close refl refl)) (complete refl refl refl))
      (stop_plugin (counting "cors") validator_left refl refl refl)

gate_stays_example : (one_down.shutting_down ≡ true) × (admitted one_down ≡ admitted signalled)
gate_stays_example = gate_stays two_plugins ended refl

whole : Run two_plugins (listening 1) all_down
unfolding lets_in pass_gate start_shutdown shut_plugin_down
whole =
    next
      (next
        (next
          (next
            (next
              (next (next (next here (arrive refl)) (signal refl refl)) (pass visit 0 refl refl))
              (close refl refl))
            (complete refl refl refl))
          (stop_plugin (counting "cors") validator_left refl refl refl))
        (stop_plugin (counting "token-validator") [] refl refl refl))
      (finish refl refl refl)

shutdown_sequence_example :
    (names_down all_down ≡ reverse (map (λ p. p.name) two_plugins))
    × (all_down.shutting_down ≡ true)
    × (all_down.is_late ≡ false → all_down.inside ≡ 0)
unfolding start_shutdown shut_plugin_down
shutdown_sequence_example = (shutdown_sequence two_plugins 1 all_down whole).2 refl

cut_off_example :
    (s : Server ℕ) × Run two_plugins (listening 1) s
    × (s.has_exited ≡ true)
    × (s.inside ≡ 1)
    × (s.is_late ≡ false)
    × (s.logged ≡ [])
    × ((u : Server ℕ) → ¬ Move two_plugins s u)
cut_off_example = exit_cuts_off two_plugins 1 visit

-- One request was counted, and no stream.
abbrev registries : Metrics × SseMetrics
registries = (record_request "orders" 200 7 new_metrics, new_sse_metrics)

abbrev scraped : Writer × (Metrics × SseMetrics)
scraped = handle_metrics (λ n. "200") (λ s. s.0) (λ s. s.1) visit fresh registries

scrape_example :
    (counters : List Message) × (streams : List Message) × IsReport
      (λ n. "200")
      registries.0
      counters
    × IsSseReport registries.1 streams
    × (scraped.0.sent
        ≡ some (record { status = 200; header = Header.set [] "Content-Type" metrics_type }))
    × (scraped.0.body ≡ [] ++ map formatted (counters ++ streams))
    × (scraped.1 ≡ registries)
scrape_example = handle_metrics_lem (λ n. "200") (λ s. s.0) (λ s. s.1) visit fresh registries refl
