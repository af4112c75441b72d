-- ===== src/Proxy/Dispatcher.antt =====
-- `New`, `ServeHTTP` and `matchEntry`.
pub mod Laws
use yaagents_gateway.Prelude.{String, Bool, ◌&&◌, List, [], ◌∷◌, Option, none, some, if◌then◌else◌}
use yaagents_gateway.Prelude.Text.{equal_fold}
use yaagents_gateway.Prelude.Result.{Result, ok, err, ◌>>=◌}
use yaagents_gateway.Http.Writer.{ErrorBody, write_error, sprintf, text}
use yaagents_gateway.Http.Request.{Request, Handler}
use yaagents_gateway.Routes.{Route}
use yaagents_gateway.Tenant.{trace_of}
use yaagents_gateway.World.{Outside, World}
use yaagents_gateway.Proxy.Match.{match_path}
use yaagents_gateway.Proxy.Observe.{observe_handler}
use yaagents_gateway.Proxy.Forward.{make_route_handler}

pub record RouteEntry (W : Type 0) : Type 0 where
  pub route : Route
  pub handler : Handler W

abbrev pub route_not_found : Request → ErrorBody
route_not_found r = record {
  kind = "error";
  code = "ROUTE_NOT_FOUND";
  message = sprintf "no route matched %s %s" (text r.method ∷ text r.path ∷ []);
  retry_after = 0;
  trace = trace_of r.context "";
}

-- The test of `matchEntry`.
unfoldable pub route_matches : Route → Request → Bool
route_matches route r = equal_fold route.method r.method && match_path route.path r.path

module _ {W : Type 0} where
  -- `matchEntry`
  unfoldable pub match_entry : List (RouteEntry W) → Request → Option (RouteEntry W)
  match_entry [] r = none
  match_entry (e ∷ es) r = if route_matches e.route r then some e else match_entry es r

  -- `ServeHTTP`
  unfoldable pub serve_http : List (RouteEntry W) → Handler W
  unfolding match_entry
  serve_http entries r w s = elim (match_entry entries r) [
    | none ↦ (write_error 404 (route_not_found r) w, s)
    | some e ↦ e.handler r w s
  ]

module _ {X : Type 0} (o : Outside X) where
  -- `New`: the entries in the order of the routes, or the id of the first route that fails.
  unfoldable pub new_dispatcher : List Route → Result String (List (RouteEntry (World X)))
  new_dispatcher [] = ok []
  new_dispatcher (route ∷ routes) = elim (make_route_handler o route) [
    | none ↦ err route.id
    | some h ↦ do
      entries ← new_dispatcher routes
      ok (record { route = route; handler = observe_handler o h route } ∷ entries)
  ]
