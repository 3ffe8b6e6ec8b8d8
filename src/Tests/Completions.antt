-- ===== src/Tests/Completions.antt =====
-- Runs of a request for a completion.
use commandclaw_gateway.Prelude.{
  ℕ, String, ◌≡◌, refl, false, none, some, Option, [], ◌∷◌, lookup, keep, Try, ok, contains,
  is_empty, keep_try, insert, str, nat,
}
use commandclaw_gateway.Floats.Naturals.{naturals}
use commandclaw_gateway.Redis.Memory.{memory, empty, held}
use commandclaw_gateway.Config.{get_deployments_for_model}
use commandclaw_gateway.Routing.Cooldowns.{is_cooled_down}
use commandclaw_gateway.Routing.Strategies.{filter_by_region, constraint_of}
use commandclaw_gateway.Routing.Router.{
  select_deployment, get_upstream_remaining, team_regions, forbidden,
}
use commandclaw_gateway.Middleware.RateLimiter.{Clock, check_and_increment_rate_limit}
use commandclaw_gateway.Middleware.Cache.{Json, Responses}
use commandclaw_gateway.Middleware.CostTracker.{SpendLog}
use commandclaw_gateway.Auth.Budgets.{check_budget}
use commandclaw_gateway.Routes.Chat.{Providers, answered as replied, route_and_call, attempts}
use commandclaw_gateway.Routes.Completions.{
  Completion, Checks, Session, Reply, answered, chat_completions,
}
use commandclaw_gateway.Routes.Completions.Answered.{IsPassed, chat_completions-IsPassed}
use commandclaw_gateway.Tests.{user, config, world}

abbrev pub json : Json
json = record { Value = String; is_none = λ v. false; dumps = λ fields. "{}"; sha256 = λ text. "h" }

-- Responses are texts.
abbrev pub responses : Responses naturals
responses = record {
  Response = String;
  stamp = λ now model r. r;
  cached_at = λ r. 0;
  unstamp = λ r. r;
  dumps = λ r. r;
  loads = λ text. some text;
}

abbrev pub providers : Providers naturals memory world String
providers = record { prepare = λ d. none; send = λ n d. replied "hi" }

abbrev pub checks : Checks naturals memory world json responses
checks = record { before = λ q. none; after = λ r. none; usage = λ r. none }

abbrev pub clock : Clock naturals memory
clock = record { now_ms = 70000; now = 70; today = "20250101"; month = "202501" }

abbrev pub completion : Completion naturals memory world json responses
completion = record {
  body = ("model", "gpt") ∷ [];
  model = "gpt";
  estimated_tokens = 10;
  request_id = "r1";
  log_id = "l1";
  cache_metadata = record {
    cache_control = none;
    cache_ttl = none;
    cache_s_maxage = none;
    cache_namespace = none;
  };
  tags = [];
}

abbrev pub dump : SpendLog ℕ → String
dump log = log.log_id

abbrev pub session : Session naturals memory world json responses
session = record { server = empty; local = record { store = []; max_size = 10 }; calls = 0 }

abbrev pub log : SpendLog ℕ
log = record {
  log_id = "l1";
  request_id = "r1";
  key_id = "k1";
  user_id = "u1";
  team_id = none;
  org_id = none;
  model = "gpt";
  input_tokens = 0;
  output_tokens = 0;
  cost_usd = 0;
  cache_hit = false;
  tags = [];
  created_at = 70;
}

abbrev Outcome : Type 0
Outcome = Option (
    Try (Reply naturals memory world json responses × Session naturals memory world json responses))

abbrev outcome : Outcome
outcome =
    chat_completions naturals memory world json responses providers checks config [] dump user clock
      completion 5 session

-- The state that an outcome ends in.
abbrev ending : Outcome → Session naturals memory world json responses
ending none = session
ending (some (Try.raise e)) = session
ending (some (ok (reply, t))) = t

is_answered : outcome ≡ some (ok (answered "hi" log, ending outcome))
unfolding chat_completions check_and_increment_rate_limit check_budget route_and_call attempts
    select_deployment get_deployments_for_model is_cooled_down held is_empty filter_by_region
    constraint_of contains keep_try get_upstream_remaining team_regions forbidden lookup keep insert
    str nat
is_answered = refl

chat_completions-IsPassed_example :
    IsPassed naturals memory world json responses providers checks config [] dump user clock
      completion 0 empty "hi"
chat_completions-IsPassed_example =
    chat_completions-IsPassed naturals memory world json responses providers checks config [] dump
      user clock completion 5 session (ending outcome) "hi" log is_answered
