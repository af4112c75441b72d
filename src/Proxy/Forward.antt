-- ===== src/Proxy/Forward.antt =====
-- `buildProxy` and `makeRouteHandler`: tenant requirement, then roles, then deadline, then upstream.
-- What httputil.ReverseProxy does besides calling Director, ModifyResponse and ErrorHandler (hop-by-hop
-- headers, X-Forwarded-For, upgrades) belongs to the round trip.
pub mod Laws
pub mod Relay
pub mod Streamed
use Prim.Native.Nat.{ℕ, ◌+◌}
use Prim.Native.String
use yaagents_gateway.Prelude.{
  String, Bool, true, false, ◌||◌, List, [], ◌∷◌, Option, none, some, if◌then◌else◌, ◌==◌,
}
use yaagents_gateway.Prelude.Int.{is_nonpos, to_ℕ, seconds, longer_by}
use yaagents_gateway.Prelude.Result.{Result, ok, err}
use yaagents_gateway.Http.Header
use yaagents_gateway.Http.Context.{Context, with_timeout}
use yaagents_gateway.Http.Writer.{
  Writer, ErrorBody, set_header, write_header, write_error, plain, sprintf, text,
}
use yaagents_gateway.Http.Request.{Request, Handler, with_context}
use yaagents_gateway.Routes.{Route}
use yaagents_gateway.Tenant.{trace_of, enforce_tenant, inject_upstream_headers}
use yaagents_gateway.Llm.Sse.{add_all, copy_reads, execution_timeout, sse_proxy}
use yaagents_gateway.Llm.Proxy.{mode_sse, llm_proxy}
use yaagents_gateway.World.{
  body_failed, Url, Outbound, Upstream, TransportError, deadline_exceeded, canceled, unreachable,
  Outside, World,
}
use yaagents_gateway.Proxy.Roles.{enforce_roles}

abbrev pub profile_header : String
profile_header = "X-YAAgents-Profile"

abbrev pub profile_version : String
profile_version = "v0.2"

-- `Director`
unfoldable pub director : Url → Request → Outbound
director target r = record {
  method = r.method;
  url = record {
    scheme = target.scheme;
    user = "";
    host = target.host;
    path = r.path;
    raw_query = r.raw_query;
    fragment = "";
  };
  host = target.host;
  header = inject_upstream_headers r.context r.header;
  body = r.body;
  timeout = r.context.timeout;
}

-- `ModifyResponse`
abbrev pub modify_response : Upstream → Upstream
modify_response resp = record resp {
  header = Header.set resp.header profile_header profile_version;
}

-- How the reverse proxy passes a response on: a body that fails makes it panic with
-- http.ErrAbortHandler after what was read so far. Informational responses (1xx), which it passes on
-- before the final one, are left out.
unfoldable pub pass_on : Upstream → Writer → Writer
pass_on resp w =
    let w' = copy_reads resp.reads (write_header resp.status (add_all resp.header w)) in
    record w' { aborted = w'.aborted || body_failed resp.reads }

abbrev pub upstream_unavailable : Request → ErrorBody
upstream_unavailable r = record {
  kind = "failed_dependency";
  code = "UPSTREAM_UNAVAILABLE";
  message = plain "upstream service did not respond";
  retry_after = 0;
  trace = trace_of r.context "";
}

-- `ErrorHandler`
unfoldable pub error_handler : TransportError → Request → Writer → Writer
error_handler deadline_exceeded r w = write_error 500 (execution_timeout r.context) w
error_handler canceled r w = write_error 502 (upstream_unavailable r) w
error_handler unreachable r w = write_error 502 (upstream_unavailable r) w

abbrev pub insufficient_roles : String → Request → ErrorBody
insufficient_roles role r = record {
  kind = "forbidden";
  code = "INSUFFICIENT_ROLES";
  message = sprintf "actor is missing required role: %s" (text role ∷ []);
  retry_after = 0;
  trace = trace_of r.context "";
}

-- `time.Duration(n) * time.Second`, with the grace of 30 seconds for a stream, in nanoseconds; none
-- if the route has no deadline. A product beyond int64 wraps around, and a negative duration is a
-- deadline in the past, as 0 is.
unfoldable pub deadline : Route → Option ℕ
deadline route =
    let base = seconds route.execution_timeout_seconds in
    if is_nonpos route.execution_timeout_seconds
    then none
    else some (to_ℕ (if route.mode == mode_sse then longer_by 30000000000 base else base))

abbrev pub under_deadline : Option ℕ → Request → Request
under_deadline none r = r
under_deadline (some n) r = with_context r (with_timeout r.context n)

module _ {X : Type 0} (o : Outside X) where
  -- `buildProxy`
  unfoldable pub build_proxy : Url → Handler (World X)
  unfolding director pass_on error_handler
  build_proxy target r w s =
      let (result, x) = o.round_trip (director target r) s.outside in
      let s' = record s { outside = x } in
      elim result [
        | ok resp ↦ (pass_on (modify_response resp) w, s')
        | err e ↦ (error_handler e r w, s')
      ]

  -- The handler of the route's mode.
  unfoldable pub upstream_handler : Url → Route → Handler (World X)
  upstream_handler target route r w s =
      if route.mode == mode_sse
      then llm_proxy (sse_proxy o target route.id) route.id r
          (set_header profile_header profile_version w) s
      else build_proxy target r w s

  -- `rbacAndProxy`
  unfoldable pub rbac_and_proxy : Url → Route → Handler (World X)
  rbac_and_proxy target route r w s = elim (enforce_roles r.context route.roles) [
    | some role ↦ (write_error 403 (insufficient_roles role r) w, s)
    | none ↦ upstream_handler target route (under_deadline (deadline route) r) w s
  ]

  -- The chain that `makeRouteHandler` returns.
  unfoldable pub route_handler : Url → Route → Handler (World X)
  route_handler target route = enforce_tenant route.tenant_required (rbac_and_proxy target route)

  -- `makeRouteHandler`: none if the target cannot be parsed.
  unfoldable pub make_route_handler : Route → Option (Handler (World X))
  make_route_handler route = elim (o.parse_url route.target) [
    | none ↦ none
    | some target ↦ some (route_handler target route)
  ]
