-- ===== src/Middleware/CostTracker.antt =====
-- infra/cost_calculator.py and middleware/cost_tracker.py: the cost of a request, and its record.
-- Outside of the program are the text of a log entry, its new id and `time.time`; metrics and the
-- provider's name in an entry are left out. A pricing without entries counts as none.
pub mod Logged
use commandclaw_gateway.Prelude.{
  ℕ, String, Bool, true, false, not, ◌&&◌, Option, none, some, List, [], ◌∷◌, ◌==◌, nat_eq,
  if◌then◌else◌, lookup, starts_with, ◌<>◌,
}
use commandclaw_gateway.Floats.{Floats}
use commandclaw_gateway.Redis.{Redis}
use commandclaw_gateway.Schemas.{IdentityContext}
use commandclaw_gateway.Routing.Strategies.{Pricing, price, known}
use commandclaw_gateway.Auth.Budgets.{increment_spend}

module _ (F : Floats) where
  -- The first entry other than "_default" whose name begins the model's name.
  unfoldable pub prefix_pricing :
      String → List (String × Pricing F.Float) → Option (Pricing F.Float)
  prefix_pricing model [] = none
  prefix_pricing model ((name, p) ∷ table) =
      if not (name == "_default") && starts_with model name
      then some p
      else prefix_pricing model table

  abbrev literal : String → F.Float
  literal text = elim (F.parse text) [ none ↦ F.zero | some x ↦ x ]

  -- `table.get("_default", {"input": 0.005, "output": 0.015})`
  unfoldable pub default_pricing : List (String × Pricing F.Float) → Pricing F.Float
  unfolding lookup
  default_pricing table = elim (lookup "_default" table) [
    | some p ↦ p
    | none ↦ record { input = some (literal "0.005"); output = some (literal "0.015") }
  ]

  -- `x if x else y`, where an empty pricing counts as none
  abbrev or_pricing : Option (Pricing F.Float) → Option (Pricing F.Float) → Option (Pricing F.Float)
  or_pricing none p = p
  or_pricing (some q) p = some q

  unfoldable pub get_model_pricing :
      String → List (String × Pricing F.Float) → Option (Pricing F.Float)
  unfolding lookup prefix_pricing known
  get_model_pricing model table =
      or_pricing (known F (lookup model table)) (prefix_pricing model table)

  unfoldable pub chosen_pricing : String → List (String × Pricing F.Float) → Pricing F.Float
  unfolding get_model_pricing default_pricing known
  chosen_pricing model table = elim (known F (get_model_pricing model table)) [
    | some p ↦ p
    | none ↦ default_pricing table
  ]

  unfoldable pub calculate_cost : List (String × Pricing F.Float) → String → ℕ → ℕ → F.Float
  unfolding chosen_pricing price
  calculate_cost table model input_tokens output_tokens =
      let pricing = chosen_pricing model table in
      let per_thousand = λ (n : ℕ). F.div (F.of_nat n) (F.of_nat 1000) in
      F.round_8 (
        F.add (F.mul (per_thousand input_tokens) (price F pricing.input))
          (F.mul (per_thousand output_tokens) (price F pricing.output)))

-- The counts in `response["usage"]`, 0 where they are missing.
pub record Usage : Type 0 where
  pub prompt_tokens : ℕ
  pub completion_tokens : ℕ
  pub input_tokens : ℕ
  pub output_tokens : ℕ

unfoldable pub extract_usage_from_response : Option Usage → ℕ × ℕ
extract_usage_from_response none = (0, 0)
extract_usage_from_response (some u) =
    if nat_eq u.prompt_tokens 0 && nat_eq u.completion_tokens 0
    then (u.input_tokens, u.output_tokens)
    else (u.prompt_tokens, u.completion_tokens)

pub record SpendLog (F : Type 0) : Type 0 where
  pub log_id : String
  pub request_id : String
  pub key_id : String
  pub user_id : String
  pub team_id : Option String
  pub org_id : Option String
  pub model : String
  pub input_tokens : ℕ
  pub output_tokens : ℕ
  pub cost_usd : F
  pub cache_hit : Bool
  pub tags : List String
  pub created_at : F

-- `SPEND_LOG_CAP - 1`
abbrev pub last_kept : ℕ
last_kept = 9999

abbrev pub log_key : String → String
log_key key_id = "gateway:spend_logs:" <> key_id

-- What a request says of itself when its spend is recorded, with the new id and the time.
pub record SpendContext (F : Type 0) : Type 0 where
  pub log_id : String
  pub request_id : String
  pub model : String
  pub cache_hit : Bool
  pub tags : List String
  pub now : F

module _ (F : Floats) (R : Redis) (dump : SpendLog F.Float → String)
    (table : List (String × Pricing F.Float)) where
  unfoldable pub cost_of_request : SpendContext F.Float → ℕ → ℕ → F.Float
  unfolding calculate_cost
  cost_of_request c input_tokens output_tokens =
      if c.cache_hit then F.zero else calculate_cost F table c.model input_tokens output_tokens

  unfoldable pub log_of : IdentityContext F.Float → SpendContext F.Float → ℕ → ℕ → SpendLog F.Float
  unfolding cost_of_request
  log_of identity c input_tokens output_tokens = record {
    log_id = c.log_id;
    request_id = c.request_id;
    key_id = identity.key_id;
    user_id = identity.user_id;
    team_id = identity.team_id;
    org_id = identity.org_id;
    model = c.model;
    input_tokens = input_tokens;
    output_tokens = output_tokens;
    cost_usd = cost_of_request c input_tokens output_tokens;
    cache_hit = c.cache_hit;
    tags = c.tags;
    created_at = c.now;
  }

  -- `if cost > 0: await increment_spend(...)`
  unfoldable pub charged : IdentityContext F.Float → F.Float → R.State → R.State
  unfolding increment_spend
  charged identity cost s =
      if F.lt F.zero cost
      then increment_spend F R identity.key_id identity.user_id cost identity.team_id
          identity.org_id s
      else s

  unfoldable pub append_log : String → String → R.State → R.State
  append_log key entry s = R.ltrim key last_kept (R.lpush key entry s)

  unfoldable pub record_spend :
      IdentityContext F.Float → SpendContext F.Float → ℕ → ℕ → R.State → SpendLog F.Float × R.State
  unfolding log_of charged append_log
  record_spend identity c input_tokens output_tokens s =
      let log = log_of identity c input_tokens output_tokens in
      let s' = charged identity log.cost_usd s in
      (
        log,
        append_log (log_key "all") (dump log) (append_log (log_key identity.key_id) (dump log) s'),
      )
