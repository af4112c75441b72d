-- ===== src/Llm.antt =====
-- internal/llm: the proxy of LLM routes, its limiter and its metrics.
pub mod Limiter
pub mod SseMetrics
pub mod Sse
pub mod Proxy
