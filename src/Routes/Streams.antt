-- ===== src/Routes/Streams.antt =====
-- routes/chat.py `_handle_streaming`: a request that is answered with a stream. What the adapter of the
-- provider makes of the lines of a response is a parameter, with whether the response broke off; the
-- sent texts of errors, traces and metrics are left out.
pub mod Kept
use commandclaw_gateway.Prelude.{
  ℕ, ◌+◌, String, ◌≡◌, refl, sym, ap, ◌∙◌, Bool, true, false, ◌||◌, Option, none, some, List, [],
  ◌∷◌, if◌then◌else◌, truthy, Try, Error, ok, raise, ◌<>◌,
}
use commandclaw_gateway.Floats.{Floats}
use commandclaw_gateway.Redis.{Redis}
use commandclaw_gateway.Schemas.{Deployment, IdentityContext}
use commandclaw_gateway.Config.{GatewayConfig}
use commandclaw_gateway.Routing.Cooldowns.{reset_cooldown}
use commandclaw_gateway.Routing.Strategies.{Pricing}
use commandclaw_gateway.Routing.Router.{World, deployment_busy_counter, select_deployment}
use commandclaw_gateway.Auth.VirtualKeys.{text_or}
use commandclaw_gateway.Middleware.Cache.{Responses, Stores, set_cached_response}
use commandclaw_gateway.Middleware.CostTracker.{SpendLog, SpendContext, record_spend}
use commandclaw_gateway.Middleware.Streaming.{Chunk, Assembler, new_assembler, add_chunks}

module _ (F : Floats) (R : Redis) (W : World F R) (J : Responses F) (T : Type 0) where
  abbrev pub Piece : Type 0
  Piece = Chunk T (ℕ × ℕ)

  -- A provider: whether a request can be ready, the chunks of its response up to the one that ends
  -- it, and whether it broke off before; and the response that `finalize` writes to the cache.
  pub record Source : Type 0 where
    pub prepare : Deployment F.Float → Option Error
    pub chunks : Deployment F.Float → List Piece
    pub breaks : Deployment F.Float → Bool
    pub assembled : String → Assembler T (ℕ × ℕ) → J.Response

  -- How a stream ends, after its chunks: no deployment, complete with a charge, or an error.
  pub data Ending : Type 0 where
    no_deployment : Ending
    complete : SpendLog F.Float → Ending
    broken : Ending

  pub record Streamed : Type 0 where
    pub sent : List Piece
    pub ending : Ending
    pub stores : Stores F R J

  module _ (S : Source) (config : GatewayConfig F.Float) (table : List (String × Pricing F.Float))
      (dump : SpendLog F.Float → String) (identity : IdentityContext F.Float)
      (context : SpendContext F.Float) (cache_key : Option String) (no_store : Bool) where
    -- `finalize`, with `no_store` as the assembler gets it.
    unfoldable pub finalize : Assembler T (ℕ × ℕ) → Stores F R J → Stores F R J
    unfolding set_cached_response
    finalize a st = if no_store then st else elim cache_key [
      | none ↦ st
      | some key ↦
          set_cached_response F R J config.cache_settings key (S.assembled context.model a)
            context.model none context.now st
    ]

    -- `usage.get("prompt_tokens", 0)` and `usage.get("completion_tokens", 0)`
    abbrev pub counts : Option (ℕ × ℕ) → ℕ × ℕ
    counts none = (0, 0)
    counts (some u) = u

    unfoldable pub completed : Deployment F.Float → Stores F R J → Streamed
    unfolding finalize record_spend
    completed d st =
        let a = add_chunks new_assembler (S.chunks d) in
        let st' = finalize a st in
        let (input_tokens, output_tokens) = counts a.usage in
        let (log, server) =
          record_spend F R dump table identity context input_tokens output_tokens
            (reset_cooldown R d.deployment_id st'.server) in
        record {
          sent = S.chunks d;
          ending = complete log;
          stores = record { server = server; local = st'.local };
        }

    unfoldable pub stream_from : Deployment F.Float → Stores F R J → Streamed
    unfolding completed
    stream_from d st =
        let st' = record st { server = deployment_busy_counter R d.deployment_id st.server } in
        if S.breaks d
        then record { sent = S.chunks d; ending = broken; stores = st' }
        else completed d st'

    ready : Deployment F.Float → Option Error → Stores F R J → Try Streamed
    unfolding stream_from
    ready d none st = ok (stream_from d st)
    ready d (some e) st = raise e

    chosen : Try (Option (Deployment F.Float)) → Stores F R J → Try Streamed
    unfolding ready
    chosen (raise e) st = raise e
    chosen (ok none) st = ok (record { sent = []; ending = no_deployment; stores = st })
    chosen (ok (some d)) st = ready d (S.prepare d) st

    unfoldable pub handle_streaming : Stores F R J → Try Streamed
    unfolding chosen select_deployment
    handle_streaming st =
        chosen (select_deployment F R W config identity context.model 0 st.server) st
