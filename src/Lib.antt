-- ===== src/Lib.antt =====
-- The LLM gateway commandclaw-gateway: an HTTP service that authenticates requests by virtual keys,
-- checks roles, rate limits and budgets, answers from a cache, and routes a model's requests to one of
-- its deployments, with retries and fallbacks. All its state is on a Redis server, but for a cache in
-- memory.
--
-- A request passes these parts, in this order:
--   Auth.Gate          auth/middleware.py: `dispatch` finds the identity, by validate_key of
--                      auth/virtual_keys.py (Auth.VirtualKeys; the changes of a key are in
--                      Auth.KeyChanges) and, for a change on an administrative path, asks
--                      check_rbac of auth/rbac.py (Auth.Rbac)
--   Routes.Completions routes/chat.py: `chat_completions` and `_handle_non_streaming`, which call
--                      middleware/rate_limiter.py (Middleware.RateLimiter, Middleware.Limits),
--                      auth/budgets.py (Auth.Budgets), middleware/cache.py (Middleware.Cache;
--                      streams are in Middleware.Streaming), middleware/memory_cache.py
--                      (Middleware.MemoryCache), middleware/cost_tracker.py and
--                      infra/cost_calculator.py (Middleware.CostTracker)
--   Routes.Chat        routes/chat.py: `_route_and_call`, the loop over the models to try, with
--                      Routing.Fallbacks, Routing.Retries and Routing.Cooldowns (the files of these
--                      names under routing/)
--   Routing.Router     routing/router.py: `select_deployment`, with Routing.Strategies
--                      (routing/strategies.py; its latencies are in
--                      Routing.Latency) and the index of Config (config.py)
--   Routes.Messages    routes/messages.py: requests and responses in the format of Anthropic, with
--                      Routes.Messages.Handler for `messages`, and Providers.Anthropic
--                      (providers/anthropic_provider.py) for what a deployment of Anthropic gets
--   Routes.Streams     routes/chat.py: `_handle_streaming`; the lines of a stream of Anthropic are in
--                      Providers.Anthropic.Stream
--   Routes.Embeddings  routes/embeddings.py: `embeddings`
--   Routes.Screening   the checks that the handlers ask for: middleware/guardrails.py
--                      (Middleware.Guardrails, with Middleware.Patterns, the redaction of
--                      Middleware.Detection and a matcher in Prelude.Regex), through the wrappers of
--                      observability/callbacks.py
-- Providers holds the records of both formats (providers/base.py), and Schemas the shared data of
-- schemas/common.py. A function keeps its name, less a leading underscore; a child module named for
-- a theorem's subject holds proofs, and Tests holds runs at concrete inputs.
--
-- How the code is read:
--   * Redis is an interface of commands on an unknown state with their documented behaviour as laws;
--     Redis.Memory is a server that meets them. `await` is a plain call: each request runs alone, and
--     no law speaks of other clients between two commands.
--   * Floats is an interface of Python's float; the laws a theorem needs are its hypotheses, and
--     Floats.Naturals shows that they can be met. Token counts, limits and times in milliseconds are
--     natural numbers; where a text is read back as an integer it may be negative.
--   * A dict that the code changes in place is modelled where it is read again: a response that the
--     cache write changes and the client then gets, and an entry of the cache in memory that a hit
--     changes (Routes.Completions, Middleware.Cache).
--   * An exception is a value of Try (Prelude.Raising). json, hashlib, secrets, ulid, random, the clock,
--     a custom plugin and the providers are parameters.
--   * The loop over the models runs on fuel, since the code appends to the list that it walks;
--     First states how much is enough, and Endless the case where none is. The pieces of a streamed
--     text have the length of the text as fuel.
--
-- Auth.Teams (auth/teams.py) writes the records of teams that the limits and the router read, and
-- Auth.Audit (auth/audit.py) keeps the log of administrative operations.
--
-- Not modelled: HTTP and the adapters of the other providers (providers/), the other handlers
-- (routes/), metrics, traces and alerts (observability/), tokens (auth/jwt_auth.py), the count of
-- tokens by the tiktoken library (infra/token_counter.py), listings and scans over all keys of the
-- server, and the wording of budget messages. Presidio and a guardrail service are parameters of the
-- guardrails.
pub mod Prelude
pub mod Providers
pub mod Floats
pub mod Redis
pub mod Schemas
pub mod Config
pub mod Auth
pub mod Middleware
pub mod Routing
pub mod Routes
pub mod Tests
