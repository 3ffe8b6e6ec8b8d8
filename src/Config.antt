-- ===== src/Config.antt =====
-- config.py: the settings, and the deployments by model.
pub mod Index
use commandclaw_gateway.Prelude.{
  ℕ, String, Bool, Option, none, some, List, [], ◌∷◌, ◌++◌, leb, if◌then◌else◌, lookup, insert,
}
use commandclaw_gateway.Schemas.{Deployment}

-- The settings of the router that the code reads.
pub record RouterSettings (F : Type 0) : Type 0 where
  pub routing_strategy : String
  pub num_retries : ℕ
  pub timeout : F
  pub allowed_fails : ℕ
  pub cooldown_time : ℕ
  pub fallbacks : List (String × List String)
  pub context_window_fallbacks : List (String × List String)
  pub content_policy_fallbacks : List (String × List String)
  pub default_fallback : Option String
  pub custom_routing_plugin : Option String
  pub use_token_bucket : Bool

-- The settings of the cache.
pub record CacheSettings : Type 0 where
  pub backend : String
  pub default_ttl : ℕ
  pub per_model_ttl : List (String × ℕ)
  pub supported_call_types : List String
  pub cache_scope : String

pub record GatewayConfig (F : Type 0) : Type 0 where
  pub deployments : List (Deployment F)
  pub router_settings : RouterSettings F
  pub cache_settings : CacheSettings
  pub auth_strategy : String

abbrev pub Group : Type 0 → Type 0
Group F = List (Deployment F)

module _ {F : Type 0} where
  -- `index.setdefault(d.model_name, []).append(d)`
  unfoldable pub add_deployment : Deployment F → List (String × Group F) → List (String × Group F)
  unfolding lookup insert
  add_deployment d index = elim (lookup d.model_name index) [
    | none ↦ insert d.model_name (d ∷ []) index
    | some group ↦ insert d.model_name (group ++ d ∷ []) index
  ]

  unfoldable pub build_index : Group F → List (String × Group F) → List (String × Group F)
  unfolding add_deployment
  build_index [] index = index
  build_index (d ∷ ds) index = build_index ds (add_deployment d index)

  -- `group.sort(key=lambda d: d.order)`: stable.
  unfoldable pub insert_by_order : Deployment F → Group F → Group F
  insert_by_order d [] = d ∷ []
  insert_by_order d (e ∷ es) =
      let rest = insert_by_order d es in if leb d.order e.order then d ∷ e ∷ es else e ∷ rest

  unfoldable pub sort_by_order : Group F → Group F
  unfolding insert_by_order
  sort_by_order [] = []
  sort_by_order (d ∷ ds) = insert_by_order d (sort_by_order ds)

  unfoldable pub sort_groups : List (String × Group F) → List (String × Group F)
  unfolding sort_by_order
  sort_groups [] = []
  sort_groups ((model, group) ∷ index) = (model, sort_by_order group) ∷ sort_groups index

  -- `self._model_index` as `GatewayConfig.__init__` leaves it.
  unfoldable pub model_index : Group F → List (String × Group F)
  unfolding build_index sort_groups
  model_index deployments = sort_groups (build_index deployments [])

  unfoldable pub get_deployments_for_model : List (Deployment F) → String → List (Deployment F)
  unfolding model_index lookup
  get_deployments_for_model deployments model = elim (lookup model (model_index deployments)) [
    | none ↦ []
    | some group ↦ group
  ]
