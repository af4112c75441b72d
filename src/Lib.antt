-- ===== src/Lib.antt =====
-- The yaagents gateway: an HTTP gateway that boots a table of routes and a chain of plugins from
-- YAML, and proxies each request that its route admits to an upstream, event streams included.
--
-- How the parts interact. At boot internal/loader brings up the plugins that are listed, in order,
-- and internal/routes validates the route table; cmd/gateway/main.go wraps the plugins around the
-- dispatcher of internal/proxy. For a request the plugins run from the first to the last, then the
-- dispatcher picks the first route whose method and path match. The route's handler checks the
-- tenant and the roles of the request's context, sets the deadline, and calls the reverse proxy or,
-- in mode sse, the stream proxy of internal/llm under a limit of streams for each tenant. Around the
-- route's handler the dispatcher counts the request (internal/metrics) and logs it (internal/audit).
--
-- Which file models which part:
-- - Prelude, Prelude/*: library names passed on; lists, maps, texts and signed integers over the
--   native numbers; results of fallible code.
-- - Value: values that the YAML and JSON decoders make, `map[string]any`.
-- - Http/Header, Http/Writer, Http/Context, Http/Request: http.Header, http.ResponseWriter with
--   internal/response/error.go, internal/reqctx/reqctx.go, and handlers. A handler is a function of a
--   request, a writer and the state of the process, to the writer and the state behind it.
-- - Plugin/*: plugin/plugin.go, plugin/registry.go, plugin/config.go.
-- - Loader, Loader/*: internal/loader/loader.go. `load` is Load, `chain` Chain, `chain_for` ChainFor.
-- - Routes, Routes/*: internal/routes/routes.go. `validate` collects all faults as validate does.
-- - Tenant: internal/tenant/tenant.go.
-- - Proxy/*: internal/proxy/dispatcher.go. Match is matchPath, Roles enforceRoles, Observe
--   observeHandler with its responseRecorder, Forward makeRouteHandler and buildProxy, Dispatcher
--   New and ServeHTTP. Forward/Relay is about what the reverse proxy passes on, Forward/Streamed about
--   the streams.
-- - Llm/*: internal/llm. Limiter is limiter.go, SseMetrics metrics.go, Sse sse.go, Proxy proxy.go.
--   Limiter/Interleaving is a step relation on any number of concurrent streams.
-- - Metrics, Audit: internal/metrics/metrics.go and internal/audit/audit.go. Metrics/Text and
--   Llm/SseMetrics/Text are the two WritePrometheus, as lists of lines.
-- - World: the state that the handlers share and what the gateway asks of the outside.
-- - Lru: the cache that internal/plugins/tenantinjector and internal/plugins/licensecheck each write
--   out, as a list of numbered elements and a map from keys to numbers.
-- - Plugins/TenantInjector, Plugins/TenantInjector/*: internal/plugins/tenantinjector/plugin.go.
-- - Jwt: what the gateway relies on of golang-jwt. `parse` is jwt.Parse around a key function that may
--   change the state.
-- - Jwks, Jwks/*: internal/plugins/tokenvalidator/jwks.go, the key store behind an issuer. `get_key` is
--   getKey, `refresh` refresh. Jwks/Interleaving is a step relation on any number of calls of getKey.
-- - Plugins/TokenValidator, Plugins/TokenValidator/*: internal/plugins/tokenvalidator/plugin.go and the
--   rest of its jwks.go. Init/* is Init, Verify the steps of handleV2 up to the accepted claims, Answers
--   its error responses, Claims the reads of the claims, Validators the calls of jwt.Parse. The
--   pointers to validators are numbers, which a store maps to key stores.
-- - Plugins/VerifiedTenant: the token validator in front of the tenant injector.
-- - Plugins/Stubs: internal/plugins/promptsanitize/plugin.go and internal/plugins/otelaudit/plugin.go.
-- - Auth, Auth/*: internal/auth, a middleware that main does not install. `cached_key` is its getKey.
-- - Config, Config/Laws: internal/config/config.go. `load_config` is Load.
-- - Plugins/LicenseCheck, Plugins/Cors, with their children: internal/plugins/licensecheck/plugin.go
--   and internal/plugins/cors/plugin.go.
-- - Gateway, Gateway/Laws: cmd/gateway/main.go. `boot` is the sequence of checks in main, `gateway` the
--   handler behind the mux. Gateway/Endpoint is the handler of /metrics; Gateway/Shutdown, with its
--   children, is a step relation on the end of the process.
-- - Tests/*: the theorems at concrete inputs.
--
-- Parameters: YAML and JSON decoding, net/url, base64, strconv, the file system, the environment, the
-- clock, random ids and the network are arguments of the definitions that use them. The outside has a
-- state of its own, which the clock's readings and round trips may change. golang-jwt is the record
-- Parser: it splits a token, checks its signature under a key and its claims under the options that the
-- code passes, and `parse` asks it in the documented order.
--
-- Bounds and fuel. All loops are structural recursion on a list or a text, so that no fuel is
-- needed. A duration that the source computes from a configured number of seconds or milliseconds
-- wraps around as an int64 of nanoseconds (Prelude/Int: `seconds`, `milliseconds`, `longer_by`); the
-- clock's readings, counters and sizes are unbounded numbers, which do not reach the bounds of int64
-- in the source. A response body is the list of its reads, each with the error that came with it.
--
-- Not modelled: log lines, JSON texts of responses and events, informational (1xx) statuses,
-- failing writes to a client, panics other than http.ErrAbortHandler (with which
-- httputil.ReverseProxy leaves the handlers when the upstream's body fails: `aborted` of a
-- writer), callers that share one singleflight lookup, handlers that interleave on the state (a
-- handler is one step; the limiter, the key store and the shutdown have step relations of their
-- own), and the mux, the server and its timeouts in main.
pub mod Prelude
pub mod Value
pub mod Http
pub mod Plugin
pub mod Loader
pub mod Routes
pub mod Llm
pub mod Metrics
pub mod Audit
pub mod World
pub mod Tenant
pub mod Proxy
pub mod Lru
pub mod Jwt
pub mod Jwks
pub mod Plugins
pub mod Auth
pub mod Config
pub mod Gateway
pub mod Tests
