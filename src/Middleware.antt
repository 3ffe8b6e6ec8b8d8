-- ===== src/Middleware.antt =====
-- middleware/
pub mod RateLimiter
pub mod MemoryCache
pub mod Cache
pub mod CostTracker
pub mod Limits
pub mod Streaming
pub mod Patterns
pub mod Detection
pub mod Guardrails
