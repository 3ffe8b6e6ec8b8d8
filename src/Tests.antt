-- ===== src/Tests.antt =====
-- Data for the runs at concrete inputs.
mod Auth
mod Routing
mod Chat
mod Teams
mod Middleware
mod Completions
mod Messages
mod Guardrails
mod Streams
mod Embeddings
use commandclaw_gateway.Prelude.{
  ℕ, suc, ◌≡◌, refl, String, Bool, true, false, Option, none, some, List, [], ◌∷◌, In, inl, ok,
  raise, Try, index_error,
}
use commandclaw_gateway.Floats.Naturals.{naturals}
use commandclaw_gateway.Redis.Memory.{memory}
use commandclaw_gateway.Schemas.{IdentityContext, Deployment, no_metadata}
use commandclaw_gateway.Config.{RouterSettings, CacheSettings, GatewayConfig}
use commandclaw_gateway.Routing.Router.{World}
use commandclaw_gateway.Routing.Router.Selection.{IsFair}

abbrev pub user : IdentityContext ℕ
user = record {
  key_id = "k1";
  user_id = "u1";
  team_id = none;
  org_id = none;
  key_alias = none;
  user_role = "internal_user";
  model_allowlist = none;
  max_budget = some 100;
  budget_duration = none;
  budget_remaining = 100;
  rpm_limit = some 60;
  tpm_limit = none;
  max_parallel_requests = none;
  guardrail_policy = none;
  region_constraint = some "eu";
  metadata = no_metadata;
}

abbrev pub deployment : String → String → ℕ → Option String → Deployment ℕ
deployment id model order region = record {
  deployment_id = id;
  model_name = model;
  provider = "openai";
  provider_model = model;
  api_base = "";
  api_key_env = "";
  rpm = none;
  tpm = none;
  max_parallel_requests = none;
  order = order;
  weight = 1;
  region = region;
  context_window = none;
}

abbrev pub gpt_us : Deployment ℕ
gpt_us = deployment "gpt-us" "gpt" 2 (some "us")

abbrev pub gpt_eu : Deployment ℕ
gpt_eu = deployment "gpt-eu" "gpt" 1 (some "eu")

abbrev pub settings : RouterSettings ℕ
settings = record {
  routing_strategy = "simple-shuffle";
  num_retries = 1;
  timeout = 30;
  allowed_fails = 3;
  cooldown_time = 60;
  fallbacks = ("gpt", "haiku" ∷ []) ∷ [];
  context_window_fallbacks = [];
  content_policy_fallbacks = [];
  default_fallback = some "haiku";
  custom_routing_plugin = none;
  use_token_bucket = false;
}

abbrev pub config : GatewayConfig ℕ
config = record {
  deployments = gpt_us ∷ gpt_eu ∷ [];
  router_settings = settings;
  cache_settings = record {
    backend = "redis";
    default_ttl = 86400;
    per_model_ttl = [];
    supported_call_types = "chat_completion" ∷ [];
    cache_scope = "team";
  };
  auth_strategy = "api_key";
}

abbrev pick_first : List (Deployment ℕ) → Try (Deployment ℕ)
pick_first [] = raise index_error
pick_first (d ∷ ds) = ok d

abbrev pub world : World naturals memory
world = record {
  loads = λ text. none;
  choices = pick_first;
  plugin = λ ds model identity. none;
  now = 70;
  pricing_table = [];
}

pick_first-In : (ds : List (Deployment ℕ)) (d : Deployment ℕ) → pick_first ds ≡ ok d → In d ds
pick_first-In [] d e = cc
pick_first-In (x ∷ xs) d e = inl (cc)

pub world-IsFair : IsFair naturals memory world
world-IsFair = record { choices = pick_first-In; plugin = λ ds model identity d e. cc }
