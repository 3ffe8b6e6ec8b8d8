-- ===== src/Schemas.antt =====
-- schemas/common.py: the data that the parts of the gateway share. `metadata` is a dict of any values;
-- the model has the keys that the code reads, with the types that it reads them at.
use commandclaw_gateway.Prelude.{ℕ, String, Option, none, List, []}

-- `metadata["per_model_limits"][model]`
pub record ModelLimits : Type 0 where
  pub rpm : Option ℕ
  pub tpm : Option ℕ

pub record Metadata (F : Type 0) : Type 0 where
  pub model_budgets : List (String × F)
  pub per_model_limits : List (String × ModelLimits)
  pub user_rpm_limit : Option ℕ
  pub global_model_rpm : List (String × ℕ)
  pub daily_token_quota : Option ℕ
  pub monthly_token_quota : Option ℕ
  pub priority : Option String

pub record IdentityContext (F : Type 0) : Type 0 where
  pub key_id : String
  pub user_id : String
  pub team_id : Option String
  pub org_id : Option String
  pub key_alias : Option String
  pub user_role : String
  pub model_allowlist : Option (List String)
  pub max_budget : Option F
  pub budget_duration : Option String
  pub budget_remaining : F
  pub rpm_limit : Option ℕ
  pub tpm_limit : Option ℕ
  pub max_parallel_requests : Option ℕ
  pub guardrail_policy : Option String
  pub region_constraint : Option String
  pub metadata : Metadata F

pub record Deployment (F : Type 0) : Type 0 where
  pub deployment_id : String
  pub model_name : String
  pub provider : String
  pub provider_model : String
  pub api_base : String
  pub api_key_env : String
  pub rpm : Option ℕ
  pub tpm : Option ℕ
  pub max_parallel_requests : Option ℕ
  pub order : ℕ
  pub weight : F
  pub region : Option String
  pub context_window : Option ℕ

-- The defaults of the fields, as pydantic fills them in.
abbrev pub no_metadata : {F : Type 0} → Metadata F
no_metadata = record {
  model_budgets = [];
  per_model_limits = [];
  user_rpm_limit = none;
  global_model_rpm = [];
  daily_token_quota = none;
  monthly_token_quota = none;
  priority = none;
}
