-- ===== src/Tests/Streams.antt =====
-- Runs of a request that is answered with a stream, and of the latencies.
use commandclaw_gateway.Prelude.{
  ℕ, String, ◌≡◌, refl, Bool, true, false, none, some, [], ◌∷◌, Try, ok, lookup, contains, is_empty,
  keep_try, keep, insert, str, nat,
}
use commandclaw_gateway.Floats.Naturals.{naturals}
use commandclaw_gateway.Redis.Memory.{memory, empty, held, Memory}
use commandclaw_gateway.Config.{get_deployments_for_model}
use commandclaw_gateway.Routing.Cooldowns.{is_cooled_down, reset_cooldown, failure_key}
use commandclaw_gateway.Routing.Strategies.{filter_by_region, constraint_of}
use commandclaw_gateway.Routing.Latency.{record_latency, get_p50_latency}
use commandclaw_gateway.Routing.Router.{
  select_deployment, get_upstream_remaining, team_regions, forbidden,
}
use commandclaw_gateway.Middleware.Cache.{Stores}
use commandclaw_gateway.Middleware.CostTracker.{SpendContext}
use commandclaw_gateway.Middleware.Streaming.{Chunk, new_assembler, add_chunks}
use commandclaw_gateway.Routes.Streams.{Source, broken, Streamed, handle_streaming}
use commandclaw_gateway.Tests.{user, config, world}
use commandclaw_gateway.Tests.Completions.{responses, dump}

abbrev piece : String → Chunk String (ℕ × ℕ)
piece s = record {
  id = some "c1";
  has_choice = true;
  content = some s;
  tool_calls = [];
  finish_reason = none;
  usage = none;
}

abbrev source : Bool → Source naturals memory world responses String
source breaks = record {
  prepare = λ d. none;
  chunks = λ d. piece "Hel" ∷ piece "lo" ∷ [];
  breaks = λ d. breaks;
  assembled = λ model a. a.full_content;
}

abbrev context : SpendContext ℕ
context = record {
  log_id = "l1";
  request_id = "r1";
  model = "gpt";
  cache_hit = false;
  tags = [];
  now = 70;
}

abbrev stores : Stores naturals memory responses
stores = record { server = empty; local = record { store = []; max_size = 10 } }

abbrev outcome : Bool → Try (Streamed naturals memory world responses String)
outcome breaks =
    handle_streaming naturals memory world responses String (source breaks) config [] dump user
      context (some "key") false stores

abbrev streamed_or_nothing :
    Try (Streamed naturals memory world responses String)
    → Streamed naturals memory world responses String
streamed_or_nothing (ok out) = out
streamed_or_nothing (Try.raise e) = record { sent = []; ending = broken; stores = stores }

hello_is_cached :
    memory.get "key" (streamed_or_nothing (outcome false)).stores.server ≡ some "Hello"
unfolding handle_streaming select_deployment get_deployments_for_model is_cooled_down held is_empty
    filter_by_region constraint_of contains keep_try get_upstream_remaining team_regions forbidden
    lookup keep insert str nat add_chunks new_assembler reset_cooldown failure_key
hello_is_cached = refl

-- Three latencies, of which the third is too old.
abbrev measured : Memory
measured =
    record_latency naturals memory "d" 7 900
      (record_latency naturals memory "d" 5 800 (record_latency naturals memory "d" 9 100 empty))

middle_latency : get_p50_latency naturals memory "d" 1000 measured ≡ some 7
unfolding get_p50_latency record_latency keep held insert lookup str nat
middle_latency = refl
