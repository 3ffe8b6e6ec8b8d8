-- ===== src/Routing.antt =====
-- routing/: which deployment serves a request, and what happens when it fails.
pub mod Retries
pub mod Fallbacks
pub mod Cooldowns
pub mod Strategies
pub mod Latency
pub mod Router
