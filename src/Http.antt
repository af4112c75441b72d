-- ===== src/Http.antt =====
-- What the gateway's handlers see of net/http: header maps, the request with its context
-- (internal/reqctx/reqctx.go), the response writer, and error bodies (internal/response/error.go).
-- A handler takes the request, the writer and the state of the process, and returns the two latter.
pub mod Header
pub mod Context
pub mod Writer
pub mod Laws
pub mod Request
pub mod Tracked
