-- ===== src/Proxy.antt =====
-- internal/proxy/dispatcher.go: the route dispatcher.
pub mod Match
pub mod Roles
pub mod Observe
pub mod Forward
pub mod Dispatcher
