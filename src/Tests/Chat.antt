-- ===== src/Tests/Chat.antt =====
-- Runs of routes/chat.py.
use commandclaw_gateway.Prelude.{
  ℕ, zero, suc, String, ◌≡◌, ◌≢◌, refl, true, false, none, some, [], arith, contains, All, lookup,
  is_empty, keep_try, ok,
}
use commandclaw_gateway.Floats.Naturals.{naturals}
use commandclaw_gateway.Redis.Memory.{Memory, memory, empty, held}
use commandclaw_gateway.Schemas.{Deployment}
use commandclaw_gateway.Config.{get_deployments_for_model}
use commandclaw_gateway.Routing.Fallbacks.{
  get_fallback_models, configured, with_default, fallback_chain,
}
use commandclaw_gateway.Routing.Cooldowns.{is_cooled_down, reset_cooldown}
use commandclaw_gateway.Routing.Strategies.{filter_by_region, constraint_of}
use commandclaw_gateway.Routing.Router.{
  busy_key, select_deployment, get_upstream_remaining, team_regions, forbidden,
}
use commandclaw_gateway.Routes.Chat.{
  Providers, Run, Answer, answered, raised, chain, attempts, route_and_call,
}
use commandclaw_gateway.Routes.Chat.First.{standard_models, route_and_call-ends}
use commandclaw_gateway.Routes.Chat.Endless.{IsUnserved, route_and_call-endless}
use commandclaw_gateway.Routes.Chat.Calls.{
  IsCalled, IsServed, attempts_lem, route_and_call-IsServed,
}
use commandclaw_gateway.Tests.{user, gpt_eu, config, world}

-- A provider whose first call raises.
abbrev first_raises : ℕ → Deployment ℕ → Answer String
first_raises zero d = raised
first_raises (suc n) d = answered "hi"

abbrev providers : Providers naturals memory world String
providers = record { prepare = λ d. none; send = first_raises }

abbrev start : Run naturals memory world String
start = record { store = empty; calls = 0; retries_used = 0; fallbacks_used = [] }

-- What a call does to the counter of busy calls.
abbrev busy : Memory → Memory
busy s =
    let key = busy_key "gpt-eu" in memory.decr key (memory.expire key 300 (memory.incr key s).1)

abbrev end : Run naturals memory world String
end = record {
  store = reset_cooldown memory "gpt-eu" (busy (busy empty));
  calls = 2;
  retries_used = 1;
  fallbacks_used = [];
}

gpt_is_no_fallback :
    contains (standard_models naturals memory world String providers config user "gpt") "gpt"
    ≡ false
unfolding contains get_fallback_models chain configured with_default fallback_chain
gpt_is_no_fallback = refl

route_and_call-ends_example :
    route_and_call naturals memory world String providers config user "gpt" 5 start ≢ none
route_and_call-ends_example =
    route_and_call-ends naturals memory world String providers config user "gpt" gpt_is_no_fallback
      5 start
      (unfold get_fallback_models chain configured with_default fallback_chain contains is_empty in
        omega arith)

haiku_is_a_fallback :
    contains (standard_models naturals memory world String providers config user "haiku") "haiku"
    ≡ true
unfolding contains get_fallback_models chain configured with_default fallback_chain
haiku_is_a_fallback = refl

haiku-IsUnserved :
    IsUnserved naturals memory world String providers config user "haiku" start "haiku"
unfolding select_deployment forbidden get_deployments_for_model
haiku-IsUnserved = refl

haiku_fallbacks-IsUnserved :
    All
      (IsUnserved naturals memory world String providers config user "haiku" start)
      (standard_models naturals memory world String providers config user "haiku")
unfolding get_fallback_models chain configured with_default fallback_chain contains
haiku_fallbacks-IsUnserved = (haiku-IsUnserved, tt)

route_and_call-endless_example :
    route_and_call naturals memory world String providers config user "haiku" 100 start ≡ none
route_and_call-endless_example =
    route_and_call-endless naturals memory world String providers config user "haiku" start
      haiku_is_a_fallback haiku-IsUnserved haiku_fallbacks-IsUnserved 100

answers :
    route_and_call naturals memory world String providers config user "gpt" 5 start
    ≡ some (ok (some "hi", end))
unfolding route_and_call attempts select_deployment get_deployments_for_model is_cooled_down held
    is_empty filter_by_region constraint_of contains keep_try get_upstream_remaining team_regions
    forbidden lookup
answers = refl

route_and_call-IsServed_example :
    IsServed naturals memory world String providers config user 0 "hi" end
route_and_call-IsServed_example =
    route_and_call-IsServed naturals memory world String providers config user "gpt" 5 start "hi"
      end answers

attempts_lem_example :
    IsCalled naturals memory world String providers config user gpt_eu 0 2
      (attempts naturals memory world String providers config user 1 0 gpt_eu start)
attempts_lem_example = attempts_lem naturals memory world String providers config user gpt_eu start
