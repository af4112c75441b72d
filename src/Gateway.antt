-- ===== src/Gateway.antt =====
-- cmd/gateway/main.go: the checks of the boot in their order, the handler that serves all paths but
-- the three of the probes, and the handlers of two of those. The mux, the server and the signals are
-- left out; `shutting` is what the shutdown flag holds when a request arrives.
pub mod Laws
pub mod Endpoint
pub mod Shutdown
use Prim.Native.Nat.{ℕ}
use yaagents_gateway.Prelude.{
  String, Bool, true, false, List, [], ◌∷◌, Option, none, some, if◌then◌else◌,
}
use yaagents_gateway.Prelude.Int.{ℤ}
use yaagents_gateway.Prelude.Result.{Result, ok, err, ◌>>=◌}
use yaagents_gateway.Value.{Object}
use yaagents_gateway.Http.Writer.{
  Writer, ErrorBody, plain, raw, set_header, write_header, write, write_error,
}
use yaagents_gateway.Http.Request.{Request, Handler}
use yaagents_gateway.Plugin.Contract.{Plugin}
use yaagents_gateway.Loader
use yaagents_gateway.Loader.Chain.{chain, validate_route_overrides}
use yaagents_gateway.Routes.{Route}
use yaagents_gateway.Routes.Validate
use yaagents_gateway.Audit.{open_sink, Sink}
use yaagents_gateway.Metrics.{new_metrics}
use yaagents_gateway.Llm.Limiter.{new_limiter}
use yaagents_gateway.Llm.SseMetrics.{new_sse_metrics}
use yaagents_gateway.Config.{GatewayConfig}
use yaagents_gateway.World.{Outside, World}
use yaagents_gateway.Proxy.Dispatcher.{RouteEntry, new_dispatcher, serve_http}

-- What the boot asks of the file system, the decoders and net/url.
pub record Files : Type 0 where
  pub read_file : String → Option String
  pub decode_routes : String → Option (List Route)
  pub is_request_uri : String → Bool
  pub opens : String → Bool
  pub read_plugins : String → Option (List Object)

pub data BootError : Type 0 where
  bad_routes : Validate.LoadError → BootError
  bad_override : String → BootError
  bad_audit_log : BootError
  bad_plugins : Loader.LoadError → BootError
  bad_target : String → BootError

abbrev shutting_down : ErrorBody
shutting_down = record {
  kind = "error";
  code = "SHUTTING_DOWN";
  message = plain "gateway is shutting down; retry shortly";
  retry_after = 0;
  trace = record { correlation_id = ""; request_id = ""; dependency = "" };
}

abbrev pub or_fail : {E F A : Type 0} → (E → F) → Result E A → Result F A
or_fail f (ok a) = ok a
or_fail f (err e) = err (f e)

abbrev pub no_override : Option String → Result BootError (Unit {0})
no_override none = ok tt
no_override (some id) = err (bad_override id)

abbrev pub sink_or_fail : Option Sink → Result BootError Sink
sink_or_fail none = err bad_audit_log
sink_or_fail (some sink) = ok sink

module _ {W : Type 0} where
  -- `withShutdownGate`
  unfoldable pub with_shutdown_gate : Bool → Handler W → Handler W
  with_shutdown_gate shutting h r w s =
      if shutting then (write_error 503 shutting_down w, s) else h r w s

  -- `handleHealthz`
  unfoldable pub handle_healthz : Handler W
  handle_healthz r w s = (
    write (raw "{\"status\":\"ok\"}")
        (write_header 200 (set_header "Content-Type" "application/json" w)),
    s,
  )

  -- `makeReadyzHandler`
  unfoldable pub make_readyz_handler : Bool → Handler W
  make_readyz_handler ready r w s =
      let w' = set_header "Content-Type" "application/json" w in
      (
        if ready
            then write (raw "{\"status\":\"ready\"}") (write_header 200 w')
            else write (raw "{\"status\":\"not ready\",\"reason\":\"no routes loaded\"}")
                (write_header 503 w'),
        s,
      )

  -- `chainWithGate`
  unfoldable pub gateway : Bool → List (Plugin W) → List (RouteEntry W) → Handler W
  gateway shutting plugins entries =
      with_shutdown_gate shutting (chain plugins (serve_http entries))

-- The gateway once it is up.
pub record Booted (X : Type 0) : Type 0 where
  pub routes : List Route
  pub plugins : List (Plugin (World X))
  pub entries : List (RouteEntry (World X))
  pub state : World X

module _ {X : Type 0} (o : Outside X) (f : Files) (reg : List (Plugin (World X))) where
  abbrev pub first_state : GatewayConfig → X → World X
  first_state cfg x = record {
    metrics = some new_metrics;
    audit_log = some [];
    limiter = some (new_limiter cfg.llm_max_sse_per_tenant);
    sse = some new_sse_metrics;
    outside = x;
  }

  -- The plugins, brought up on the first state, and the dispatcher.
  unfoldable pub bring_up : GatewayConfig → List Route → X → Result BootError (Booted X)
  bring_up cfg routes x = do
    up ← or_fail bad_plugins (
        Loader.load f.read_plugins reg cfg.plugins_file cfg.routes_file cfg.jwt_secret
          cfg.jwt_jwks_url (first_state cfg x))
    entries ← or_fail bad_target (new_dispatcher o routes)
    ok (record { routes = routes; plugins = up.0; entries = entries; state = up.1 })

  -- The boot in `main`.
  unfoldable pub boot : GatewayConfig → X → Result BootError (Booted X)
  unfolding bring_up
  boot cfg x = do
    routes ←
        or_fail bad_routes
          (Validate.load f.read_file f.decode_routes f.is_request_uri cfg.routes_file)
    passed ← no_override (validate_route_overrides routes)
    sink ← sink_or_fail (open_sink f.opens cfg.audit_log)
    bring_up cfg routes x
