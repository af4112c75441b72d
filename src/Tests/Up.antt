-- ===== src/Tests/Up.antt =====
-- A boot with one route and no plugin.
use native.Mathlib.Decide.{dec_lt}
use yaagents_gateway.Prelude.{true, List, [], ◌∷◌, some, ◌≡◌, refl}
use yaagents_gateway.Prelude.Int.{pos}
use yaagents_gateway.Prelude.Maps.{lookup}
use yaagents_gateway.Prelude.Text.{to_upper}
use yaagents_gateway.Prelude.Result.{ok}
use yaagents_gateway.Plugin.Contract.{Plugin}
use yaagents_gateway.Http.Writer.{fresh, status_of}
use yaagents_gateway.Loader.{read_entries, validator_stays_on, merge_env, init_entries}
use yaagents_gateway.Loader
use yaagents_gateway.Loader.Chain.{validate_route_overrides, overridden_off}
use yaagents_gateway.Routes.Validate
use yaagents_gateway.Routes.Validate.{
  parse, validate, check_from, check_route, check_id, check_method, check_path, check_target,
}
use yaagents_gateway.Routes.Placeholders.{parse_placeholders}
use yaagents_gateway.Audit.{open_sink}
use yaagents_gateway.World.{World}
use yaagents_gateway.Proxy.Dispatcher.{new_dispatcher}
use yaagents_gateway.Proxy.Dispatcher.Laws.{handler_of}
use yaagents_gateway.Proxy.Forward.{make_route_handler}
use yaagents_gateway.Config.{GatewayConfig}
use yaagents_gateway.Gateway.{Files, Booted, boot, bring_up, gateway, first_state}
use yaagents_gateway.Gateway.Laws.{boot-Answers}
use yaagents_gateway.Tests.Fixtures.{orders, origin, online, visit, quiet}

abbrev files : Files
files = record {
  read_file = λ path. some "routes";
  decode_routes = λ text. some (orders ∷ []);
  is_request_uri = λ s. true;
  opens = λ path. true;
  read_plugins = λ path. some [];
}

abbrev config : GatewayConfig
config = record {
  port = "8120";
  routes_file = "routes.yaml";
  audit_log = "stdout";
  plugins_file = "";
  jwt_secret = "s";
  jwt_jwks_url = "";
  shutdown_timeout_s = pos 30;
  llm_max_sse_per_tenant = pos 10;
}

abbrev no_plugins : List (Plugin (World (Unit {0})))
no_plugins = []

abbrev up : Booted (Unit {0})
up = record {
  routes = orders ∷ [];
  plugins = [];
  entries = record { route = orders; handler = handler_of online origin orders } ∷ [];
  state = first_state online files no_plugins config tt;
}

up-booted : boot online files no_plugins config tt ≡ ok up
unfolding boot bring_up Validate.load parse validate check_from check_route check_id check_method
    check_path check_target parse_placeholders to_upper dec_lt validate_route_overrides
    overridden_off lookup open_sink Loader.load read_entries validator_stays_on merge_env
    init_entries new_dispatcher make_route_handler
up-booted = refl

boot_example : status_of (gateway true up.plugins up.entries visit fresh quiet).0 ≡ some 503
boot_example =
    ((boot-Answers online files no_plugins config tt up up-booted).5 visit fresh quiet refl).0
