-- ===== src/Proxy/Dispatcher/Laws.antt =====
-- Which route answers a request.
use yaagents_gateway.Prelude.{
  true, false, List, [], ◌∷◌, Option, none, some, ◌≡◌, refl, inl, inr, Bool-cases, Option-cases,
}
use yaagents_gateway.Prelude.Result.{ok, Result-cases}
use yaagents_gateway.Http.Writer.{Writer, write_error}
use yaagents_gateway.Http.Request.{Request, Handler}
use yaagents_gateway.Routes.{Route}
use yaagents_gateway.World.{Url, Outside, World}
use yaagents_gateway.Proxy.Forward.{route_handler, make_route_handler}
use yaagents_gateway.Proxy.Observe.{observe_handler}
use yaagents_gateway.Proxy.Dispatcher.{
  RouteEntry, route_matches, match_entry, serve_http, new_dispatcher, route_not_found,
}

abbrev pub Passes : Request → Route → Type 0
Passes r route = route_matches route r ≡ false

-- The handler of a route, observed.
abbrev pub handler_of : {X : Type 0} → Outside X → Url → Route → Handler (World X)
handler_of o target route = observe_handler o (route_handler o target route) route

-- The answer of the entry that was found, or of none.
abbrev pub answer : {W : Type 0} → Option (RouteEntry W) → Handler W
answer none r w s = (write_error 404 (route_not_found r) w, s)
answer (some e) r w s = e.handler r w s

-- What a dispatcher for `routes` does with a request: no route matches, or the first that does
-- handles it.
pub data Dispatched {X : Type 0} (o : Outside X) (r : Request)
    : List Route → Option (RouteEntry (World X)) → Type 0 where
  nowhere : Dispatched o r [] none
  here :
      {route : Route} {routes : List Route} {target : Url}
      → route_matches route r ≡ true
      → o.parse_url route.target ≡ some target
      → Dispatched o r
          (route ∷ routes)
          (some (record { route = route; handler = handler_of o target route }))
  there :
      {route : Route} {routes : List Route} {e : Option (RouteEntry (World X))}
      → route_matches route r ≡ false
      → Dispatched o r routes e
      → Dispatched o r (route ∷ routes) e

module _ {X : Type 0} (o : Outside X) where
  new_dispatcher-cons :
      (route : Route) (routes : List Route) {entries : List (RouteEntry (World X))}
      → new_dispatcher o (route ∷ routes) ≡ ok entries
      → (target : Url) × (rest : List (RouteEntry (World X))) × (o.parse_url route.target
          ≡ some target)
        × (new_dispatcher o routes ≡ ok rest)
        × (record { route = route; handler = handler_of o target route } ∷ rest ≡ entries)
  unfolding new_dispatcher make_route_handler
  new_dispatcher-cons route routes h = elim (Option-cases (o.parse_url route.target)) [
    | inl bad ↦ absurd (let h' = rw (bad, new_dispatcher) at h in cc)
    | inr (target, good) ↦ elim (Result-cases (new_dispatcher o routes)) [
      | inl (rest, e) ↦ (target, rest, good, e, let h' = rw (good, e, new_dispatcher) at h in cc)
      | inr (x, e) ↦ absurd (let h' = rw (good, e, new_dispatcher) at h in cc)
    ]
  ]

  match_entry-Dispatched :
      (r : Request) (routes : List Route) (entries : List (RouteEntry (World X)))
      → new_dispatcher o routes ≡ ok entries
      → Dispatched o r routes (match_entry entries r)
  unfolding new_dispatcher match_entry
  match_entry-Dispatched r [] [] h = nowhere
  match_entry-Dispatched r [] (e ∷ es) h = absurd cc
  match_entry-Dispatched r (route ∷ routes) entries h =
      let (target, rest, good, e, es) = new_dispatcher-cons route routes h in
      rw (← es) (elim (Bool-cases (route_matches route r)) [
        | inl hit ↦ rw hit (here hit good)
        | inr other ↦ rw other (there other (match_entry-Dispatched r routes rest e))
      ])

  -- The dispatcher that was built for a list of routes answers a request by the first route whose
  -- method and path match, through that route's observed handler; where no route matches it answers
  -- 404 and changes nothing else.
  pub serve_http-Dispatched :
      (routes : List Route) (entries : List (RouteEntry (World X))) (r : Request)
      → new_dispatcher o routes ≡ ok entries
      → (e : Option (RouteEntry (World X))) × Dispatched o r routes e
        × ((w : Writer) (s : World X) → serve_http entries r w s ≡ answer e r w s)
  unfolding serve_http
  serve_http-Dispatched routes entries r h = (
    match_entry entries r,
    match_entry-Dispatched r routes entries h,
    λ w s. elim (Option-cases (match_entry entries r)) [
      | inl e ↦ rw (e, serve_http) refl
      | inr (x, e) ↦ rw (e, serve_http) refl
    ],
  )
