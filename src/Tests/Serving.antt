-- ===== src/Tests/Serving.antt =====
-- Requests to the routes of the fixtures.
use yaagents_gateway.Prelude.{true, List, [], ◌∷◌, Option, ◌≡◌, refl, ◌↔◌}
use yaagents_gateway.Prelude.Result.{ok}
use yaagents_gateway.Http.Header
use yaagents_gateway.Http.Context.{background}
use yaagents_gateway.Http.Writer.{Writer}
use yaagents_gateway.World.{World}
use yaagents_gateway.Proxy.Match.{match_path, split_path}
use yaagents_gateway.Proxy.Match.Laws.{match_path_iff, AllMatch}
use yaagents_gateway.Proxy.Forward.{make_route_handler}
use yaagents_gateway.Proxy.Dispatcher.{RouteEntry, new_dispatcher, serve_http}
use yaagents_gateway.Proxy.Dispatcher.Laws.{serve_http-Dispatched, Dispatched, handler_of, answer}
use yaagents_gateway.Tenant.{inject_upstream_headers}
use yaagents_gateway.Tenant.Laws.{inject_upstream_headers_lem}
use yaagents_gateway.Tests.Fixtures.{orders, chat, origin, online, visit}

match_path_example :
    (match_path "/orders/{id}" "/orders/7" ≡ true)
    ↔ AllMatch (split_path "/orders/{id}") (split_path "/orders/7")
match_path_example = match_path_iff "/orders/{id}" "/orders/7"

abbrev two_entries : List (RouteEntry (World (Unit {0})))
two_entries =
    record { route = orders; handler = handler_of online origin orders }
    ∷ record { route = chat; handler = handler_of online origin chat }
    ∷ []

two_entries-built : new_dispatcher online (orders ∷ chat ∷ []) ≡ ok two_entries
unfolding new_dispatcher make_route_handler
two_entries-built = refl

serve_http_example :
    (e : Option (RouteEntry (World (Unit {0})))) × Dispatched online visit (orders ∷ chat ∷ []) e
    × ((w : Writer) (s : World (Unit {0})) → serve_http two_entries visit w s ≡ answer e visit w s)
serve_http_example =
    serve_http-Dispatched online (orders ∷ chat ∷ []) two_entries visit two_entries-built

inject_example :
    (Header.get (inject_upstream_headers background (("X-Request-Id", "r1") ∷ [])) "X-Request-ID"
      ≡ "")
inject_example = (inject_upstream_headers_lem background (("X-Request-Id", "r1") ∷ [])).0
