-- ===== src/Proxy/Forward/Laws.antt =====
-- Which requests reach the upstream of a route, and what their clients get.
use yaagents_gateway.Prelude.{true, false, ◌⊎◌, some, All, Contains, ◌≡◌, ◌≢◌, ◌==◌}
use yaagents_gateway.Http.Context.{Context, tenant_id, actor_roles}
use yaagents_gateway.Http.Writer.{Writer, status_of}
use yaagents_gateway.Http.Request.{Request}
use yaagents_gateway.Routes.{Route}
use yaagents_gateway.World.{Url, Outbound, Outside, World}
use yaagents_gateway.Llm.Proxy.{mode_sse}
use yaagents_gateway.Proxy.Forward.Relay.{IsRelayed, HasTimeout}
use yaagents_gateway.Proxy.Forward.Streamed.{IsFull}

-- The actor has a tenant where the route wants one, and every role that the route wants.
abbrev pub IsAdmitted : Route → Context → Type 0
IsAdmitted route c =
    (route.tenant_required ≡ true → tenant_id c ≢ "") × All (Contains (actor_roles c)) route.roles

module _ {X : Type 0} (o : Outside X) (target : Url) (route : Route) where
  -- What becomes of an admitted request: one round trip with it, under the timeout of its route, whose
  -- result is passed on; or, for a stream without a slot, a 429 and no round trip.
  abbrev pub IsForwarded : Request → Writer → World X → Writer × World X → Type 0
  IsForwarded r w s (w', s') =
      (sent : Outbound) × HasTimeout route sent.timeout
      × (sent.method ≡ r.method)
      × (sent.url.host ≡ target.host)
      × (sent.url.path ≡ r.path)
      × (sent.url.raw_query ≡ r.raw_query)
      × (sent.body ≡ r.body)
      × ((route.mode == mode_sse) ≡ false
          → IsRelayed (o.round_trip sent s.outside).0 w w'
            × (s' ≡ record s { outside = (o.round_trip sent s.outside).1 }))
      × ((route.mode == mode_sse) ≡ true
          → (s'.outside ≡ (o.round_trip sent s.outside).1)
            ⊎ (IsFull r s × (status_of w' ≡ some 429) × (s'.outside ≡ s.outside)))
