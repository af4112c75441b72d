-- ===== src/Gateway/Laws.antt =====
-- What a boot that succeeds guarantees, and how the gateway it brings up answers.
use yaagents_gateway.Prelude.{String, true, false, List, Option, none, some, ◌≡◌, refl}
use yaagents_gateway.Prelude.Result.{Result, ok, err, ok->>=}
use yaagents_gateway.Http.Writer.{Writer, status_of}
use yaagents_gateway.Http.Request.{Request}
use yaagents_gateway.Http.Laws.{write_error_lem}
use yaagents_gateway.Plugin.Contract.{Plugin}
use yaagents_gateway.Loader
use yaagents_gateway.Loader.{Entry, read_entries, merge_env, validator_stays_on}
use yaagents_gateway.Loader.Boot.{Boots, load-Boots}
use yaagents_gateway.Loader.Chain.{validate_route_overrides}
use yaagents_gateway.Loader.Laws.{nested, chain-nested}
use yaagents_gateway.Routes.{Route}
use yaagents_gateway.Routes.Validate
use yaagents_gateway.Audit.{open_sink}
use yaagents_gateway.World.{Outside, World}
use yaagents_gateway.Proxy.Dispatcher.{RouteEntry, new_dispatcher, serve_http}
use yaagents_gateway.Proxy.Dispatcher.Laws.{Dispatched, answer, serve_http-Dispatched}
use yaagents_gateway.Config.{GatewayConfig}
use yaagents_gateway.Gateway.{
  Files, Booted, or_fail, no_override, sink_or_fail, boot, bring_up, first_state, gateway,
  with_shutdown_gate, bad_routes, bad_plugins, bad_target,
}

or_fail-ok : {E F A : Type 0} (f : E → F) (m : Result E A) {a : A} → or_fail f m ≡ ok a → m ≡ ok a
or_fail-ok f (ok a) h = cc
or_fail-ok f (err e) h = absurd cc

no_override-ok : (m : Option String) {u : Unit {0}} → no_override m ≡ ok u → m ≡ none
no_override-ok none h = refl
no_override-ok (some id) h = absurd cc

module _ {X : Type 0} (o : Outside X) (f : Files) (reg : List (Plugin (World X))) where
  -- How a gateway answers a request while it is up: the plugins that came up run in the order of
  -- their entries around the first route that matches.
  abbrev pub Answers : Booted X → Request → Type 0
  Answers g r =
      (e : Option (RouteEntry (World X))) × Dispatched o r g.routes e
      × ((w : Writer) (s : World X) → serve_http g.entries r w s ≡ answer e r w s)

  bring_up-ok :
      (cfg : GatewayConfig) (routes : List Route) (x : X) (g : Booted X)
      → bring_up o f reg cfg routes x ≡ ok g
      → (Loader.load f.read_plugins reg cfg.plugins_file cfg.routes_file cfg.jwt_secret
            cfg.jwt_jwks_url
            (first_state o f reg cfg x)
          ≡ ok (g.plugins, g.state))
        × (new_dispatcher o g.routes ≡ ok g.entries)
        × (g.routes ≡ routes)
  unfolding bring_up
  bring_up-ok cfg routes x g h =
      let (up, started, k₁) =
        ok->>=
          (or_fail bad_plugins (
            Loader.load f.read_plugins reg cfg.plugins_file cfg.routes_file cfg.jwt_secret
              cfg.jwt_jwks_url (first_state o f reg cfg x)))
          _ h in
      let (entries, built, k₂) = ok->>= (or_fail bad_target (new_dispatcher o routes)) _ k₁ in
      let same : g ≡ record { routes = routes; plugins = up.0; entries = entries; state = up.1 } =
        cc in
      rw same (or_fail-ok bad_plugins _ started, or_fail-ok bad_target _ built, refl)

  -- A boot that succeeds has accepted the route table and found no route that switches the
  -- token-validator off; it has brought up the plugins from the entries that were read; the gateway
  -- then is the nesting of these plugins around a dispatcher that answers by the first route that
  -- matches, and, once it is shutting down, answers 503 to a request without a response yet and
  -- touches nothing.
  pub boot-Answers :
      (cfg : GatewayConfig) (x : X) (g : Booted X)
      → boot o f reg cfg x ≡ ok g
      → (Validate.load f.read_file f.decode_routes f.is_request_uri cfg.routes_file ≡ ok g.routes)
        × (validate_route_overrides g.routes ≡ none)
        × ((es : List Entry) × (read_entries f.read_plugins cfg.plugins_file cfg.routes_file
              ≡ ok es)
            × Boots reg
                (merge_env cfg.jwt_secret cfg.jwt_jwks_url es)
                (first_state o f reg cfg x)
                g.plugins
                g.state)
        × ((r : Request) → Answers g r)
        × (gateway false g.plugins g.entries ≡ nested g.plugins (serve_http g.entries))
        × ((r : Request) (w : Writer) (s : World X)
            → w.sent ≡ none
            → (status_of (gateway true g.plugins g.entries r w s).0 ≡ some 503)
              × ((gateway true g.plugins g.entries r w s).1 ≡ s))
  unfolding boot bring_up gateway with_shutdown_gate
  boot-Answers cfg x g h =
      let (routes, loaded, k₁) =
        ok->>=
          (or_fail bad_routes
            (Validate.load f.read_file f.decode_routes f.is_request_uri cfg.routes_file))
          _ h in
      let (passed, kept, k₂) = ok->>= (no_override (validate_route_overrides routes)) _ k₁ in
      let (sink, opened, k₃) = ok->>= (sink_or_fail (open_sink f.opens cfg.audit_log)) _ k₂ in
      let (started, built, same) = bring_up-ok cfg routes x g k₃ in
      let (es, read, on, boots, names) =
        load-Boots f.read_plugins reg cfg.plugins_file cfg.routes_file cfg.jwt_secret
          cfg.jwt_jwks_url (first_state o f reg cfg x) g.state g.plugins started in
      (
        rw same (or_fail-ok bad_routes _ loaded),
        rw same (no_override-ok _ kept),
        (es, read, boots),
        λ r. serve_http-Dispatched o g.routes g.entries r built,
        chain-nested g.plugins (serve_http g.entries),
        λ r w s unsent. ((write_error_lem 503 _ w unsent).0, refl),
      )
