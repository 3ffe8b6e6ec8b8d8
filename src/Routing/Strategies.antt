-- ===== src/Routing/Strategies.antt =====
-- routing/strategies.py: the region and context-window filters, and the selection by cost.
pub mod Cheapest
pub mod Regions
use commandclaw_gateway.Prelude.{
  ℕ, String, Bool, true, false, not, ◌&&◌, Option, none, some, List, [], ◌∷◌, ltb, nat_eq,
  if◌then◌else◌, keep, contains, is_empty, lookup, map, ◌==◌,
}
use commandclaw_gateway.Floats.{Floats}
use commandclaw_gateway.Schemas.{Deployment, IdentityContext}

-- `region in constraint`, where the region may be None.
region_in : Option String → List String → Bool
region_in none constraint = false
region_in (some r) constraint = contains constraint r

-- The regions that bind: the identity's own, or else the team's.
unfoldable pub constraint_of : Option (List String) → Option String → List String
constraint_of none none = []
constraint_of (some regions) none = regions
constraint_of none (some r) = if r == "" then [] else r ∷ []
constraint_of (some regions) (some r) = if r == "" then regions else r ∷ []

module _ {F : Type 0} where
  unfoldable pub filter_by_region :
      List (Deployment F) → Option (List String) → Option String → List (Deployment F)
  unfolding region_in keep is_empty
  filter_by_region deployments allowed_regions identity_region =
      let constraint = constraint_of allowed_regions identity_region in
      if is_empty constraint
      then deployments
      else keep (λ d. region_in d.region constraint) deployments

  -- The copy with the new weight replaces the loop's variable only: the list is returned as it was.
  reweighted : List (String × Option F) → Deployment F → Deployment F
  unfolding lookup
  reweighted config d = elim (lookup d.deployment_id config) [
    | none ↦ d
    | some override ↦ elim override [ none ↦ d | some w ↦ record d { weight = w } ]
  ]

  unfoldable pub apply_canary_split :
      List (Deployment F) → List (String × Option F) → List (Deployment F)
  unfolding reweighted
  apply_canary_split deployments config =
      if is_empty config
      then deployments
      else let rebound = map (reweighted config) deployments in deployments

  unfoldable pub check_context_window : Deployment F → ℕ → Bool
  check_context_window d estimated_tokens = elim d.context_window [
    | none ↦ true
    | some window ↦ not (not (nat_eq window 0) && ltb window estimated_tokens)
  ]

-- pricing.yaml: the prices of a model per 1000 tokens, where they are given.
pub record Pricing (F : Type 0) : Type 0 where
  pub input : Option F
  pub output : Option F

abbrev pub unset {ℓ} : {A : Type ℓ} → Option A → Bool
unset none = true
unset (some a) = false

module _ (F : Floats) where
  -- `pricing.get(field, 0)`
  unfoldable pub price : Option F.Float → F.Float
  price none = F.zero
  price (some p) = p

  -- `if pricing`: an entry that is present and not empty.
  unfoldable pub known : Option (Pricing F.Float) → Option (Pricing F.Float)
  known none = none
  known (some p) = if unset p.input && unset p.output then none else some p

  -- The cost by which a deployment is compared, if its prices are known.
  unfoldable pub cost_of : List (String × Pricing F.Float) → Deployment F.Float → Option F.Float
  unfolding lookup price known
  cost_of table d = elim (known (lookup d.provider_model table)) [
    | some p ↦ some (F.add (price p.input) (price p.output))
    | none ↦ elim (known (lookup d.model_name table)) [
      | some p ↦ some (F.add (price p.input) (price p.output))
      | none ↦ none
    ]
  ]

  -- The loop of the selections by cost and by latency: the best so far, and its measure.
  unfoldable pub select_min :
      (Deployment F.Float → Option F.Float)
      → List (Deployment F.Float)
      → Deployment F.Float
      → F.Float
      → Deployment F.Float
  select_min measure [] best best_value = best
  select_min measure (d ∷ ds) best best_value = elim (measure d) [
    | none ↦ select_min measure ds best best_value
    | some v ↦
        if F.lt v best_value
        then select_min measure ds d v
        else select_min measure ds best best_value
  ]

  -- `deployments[0]` starts as the cheapest; an empty list is an IndexError (`none`).
  unfoldable pub cost_based_select :
      List (Deployment F.Float) → List (String × Pricing F.Float) → Option (Deployment F.Float)
  unfolding select_min cost_of
  cost_based_select [] table = none
  cost_based_select (d ∷ ds) table = some (select_min (cost_of table) (d ∷ ds) d F.inf)

-- `PRIORITY_LEVELS`
abbrev priority_levels : List (String × ℕ)
priority_levels = ("critical", 4) ∷ ("high", 3) ∷ ("normal", 2) ∷ ("low", 1) ∷ []

abbrev or_normal : Option String → String
or_normal none = "normal"
or_normal (some p) = p

unfoldable pub get_priority : {F : Type 0} → IdentityContext F → ℕ
unfolding lookup
get_priority identity = elim (lookup (or_normal identity.metadata.priority) priority_levels) [
  | none ↦ 2
  | some n ↦ n
]
