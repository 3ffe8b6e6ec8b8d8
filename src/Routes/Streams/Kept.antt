-- ===== src/Routes/Streams/Kept.antt =====
-- routes/chat.py `_handle_streaming`: what a stream leaves behind when it is complete, and when it
-- breaks off.
use commandclaw_gateway.Prelude.{ℕ, String, ◌≡◌, Bool, Option, some, List, Try, ok}
use commandclaw_gateway.Floats.{Floats}
use commandclaw_gateway.Redis.{Redis}
use commandclaw_gateway.Schemas.{Deployment, IdentityContext}
use commandclaw_gateway.Config.{GatewayConfig}
use commandclaw_gateway.Routing.Strategies.{Pricing}
use commandclaw_gateway.Routing.Router.{World, deployment_busy_counter}
use commandclaw_gateway.Middleware.Cache.{Responses, Stores}
use commandclaw_gateway.Middleware.CostTracker.{SpendLog, SpendContext}
use commandclaw_gateway.Middleware.Streaming.{Assembler}
use commandclaw_gateway.Middleware.Streaming.RoundTrip.{contents, all_calls}
use commandclaw_gateway.Middleware.Streaming.Fields.{last_usage, last_reason, first_id}
use commandclaw_gateway.Auth.VirtualKeys.{text_or}
use commandclaw_gateway.Routes.Streams.{
  Source, Ending, no_deployment, complete, broken, Streamed, finalize, counts,
}

module _ (F : Floats) (R : Redis) (W : World F R) (J : Responses F) (T : Type 0)
    (S : Source F R W J T) (config : GatewayConfig F.Float)
    (table : List (String × Pricing F.Float)) (dump : SpendLog F.Float → String)
    (identity : IdentityContext F.Float) (context : SpendContext F.Float)
    (cache_key : Option String) (no_store : Bool) where
  -- The stores after the stream of `d`, and after the cache has been given `a`.
  abbrev pub after_stream : Deployment F.Float → Stores F R J → Stores F R J
  after_stream d st = record st { server = deployment_busy_counter R d.deployment_id st.server }

  abbrev pub after_cache : Assembler T (ℕ × ℕ) → Stores F R J → Stores F R J
  after_cache a st = finalize F R W J T S config table dump identity context cache_key no_store a st

  abbrev pub counted : Option (ℕ × ℕ) → ℕ × ℕ
  counted u = counts F R W J T S config table dump identity context cache_key no_store u

  -- What an ending says of the chunks sent and the stores, for a stream from `d` that began at `st`.
  abbrev pub Leaves :
      Deployment F.Float → Stores F R J → Streamed F R W J T → Ending F R W J T → Type 0
  Leaves d st out (complete log) =
      (a : Assembler T (ℕ × ℕ)) × (a.full_content ≡ contents out.sent)
      × (a.tool_calls ≡ all_calls out.sent)
      × (a.usage ≡ last_usage out.sent)
      × (a.finish_reason ≡ last_reason out.sent)
      × (a.response_id ≡ first_id out.sent)
      × ((log.input_tokens, log.output_tokens) ≡ text_or (0, 0) (last_usage out.sent))
      × (out.stores.local ≡ (after_cache a (after_stream d st)).local)
  Leaves d st out broken = out.stores ≡ after_stream d st
  Leaves d st out no_deployment = out.stores ≡ st

  -- A stream from a deployment that the router has selected.
  abbrev pub Flows : Stores F R J → Streamed F R W J T → Try (Option (Deployment F.Float)) → Type 0
  Flows st out selected =
      (d : Deployment F.Float) × (selected ≡ ok (some d))
      × (out.sent ≡ S.chunks d)
      × Leaves d st out out.ending
