-- ===== src/Tests/Fixtures.antt =====
-- A gateway with two routes whose upstream always answers.
use yaagents_gateway.Prelude.{true, [], ◌∷◌, some}
use yaagents_gateway.Prelude.Int.{pos}
use yaagents_gateway.Prelude.Result.{ok}
use yaagents_gateway.Http.Context.{Context, background}
use yaagents_gateway.Http.Request.{Request}
use yaagents_gateway.Routes.{Route}
use yaagents_gateway.Metrics.{new_metrics}
use yaagents_gateway.Llm.Limiter.{Limiter}
use yaagents_gateway.Llm.SseMetrics.{new_sse_metrics}
use yaagents_gateway.World.{no_error, eof, Url, Upstream, Outside, World}

abbrev pub orders : Route
orders = record {
  id = "orders";
  method = "GET";
  path = "/orders/{id}";
  target = "http://orders";
  roles = "reader" ∷ [];
  tenant_required = true;
  audit = true;
  mode = "";
  execution_timeout_seconds = pos 5;
  plugins = [];
  path_params = "id" ∷ [];
}

abbrev pub chat : Route
chat = record orders { id = "chat"; path = "/chat"; mode = "sse"; path_params = [] }

abbrev pub origin : Url
origin = record {
  scheme = "http";
  user = "";
  host = "orders";
  path = "";
  raw_query = "";
  fragment = "";
}

abbrev pub reply : Upstream
reply = record {
  status = 200;
  header = ("Content-Type", "text/event-stream") ∷ [];
  reads = record { bytes = "a"; ending = no_error } ∷ record { bytes = "b"; ending = eof } ∷ [];
}

abbrev pub online : Outside (Unit {0})
online = record {
  parse_url = λ s. some origin;
  round_trip = λ q x. (ok reply, x);
  now_ms = λ x. (5, x);
  timestamp = λ x. ("2026-01-01T00:00:00Z", x);
}

abbrev pub reader : Context
reader = record background { tenant_id_value = some "t1"; actor_roles_value = some ("reader" ∷ []) }

abbrev pub visit : Request
visit = record {
  method = "GET";
  path = "/orders/7";
  raw_query = "";
  header = [];
  body = "";
  context = reader;
}

abbrev pub two_slots : Limiter
two_slots = record { max_per_tenant = 2; counts = [] }

abbrev pub quiet : World (Unit {0})
quiet = record {
  metrics = some new_metrics;
  audit_log = some [];
  limiter = some two_slots;
  sse = some new_sse_metrics;
  outside = tt;
}
