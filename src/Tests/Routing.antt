-- ===== src/Tests/Routing.antt =====
-- Runs of routing/ and of the index of config.py.
use mathlib.Core.List.{Perm}
use commandclaw_gateway.Prelude.{
  ℕ, ◌<◌, String, ◌≡◌, refl, ◌⊎◌, true, false, none, some, List, [], ◌∷◌, arith, In, inl, contains,
  keep, ◌==◌, ok, is_empty, keep_try, lookup,
}
use commandclaw_gateway.Floats.Naturals.{naturals, naturals-IsOrdered}
use commandclaw_gateway.Redis.Memory.{memory, memory-IsLawful, empty, held}
use commandclaw_gateway.Config.{get_deployments_for_model}
use commandclaw_gateway.Config.Index.{IsSorted, get_deployments_for_model_lem}
use commandclaw_gateway.Routing.Cooldowns.{is_cooled_down}
use commandclaw_gateway.Routing.Cooldowns.Pause.{Failures, failures, failures_threshold}
use commandclaw_gateway.Routing.Strategies.{
  select_min, price, known, Pricing, constraint_of, filter_by_region, cost_based_select, cost_of,
}
use commandclaw_gateway.Routing.Strategies.Cheapest.{NoneBelow, cost_based_select-least}
use commandclaw_gateway.Routing.Router.{
  select_deployment, get_upstream_remaining, team_regions, forbidden,
}
use commandclaw_gateway.Routing.Router.Selection.{IsSelected, select_deployment-IsSelected}
use commandclaw_gateway.Tests.{user, gpt_us, gpt_eu, config, world, world-IsFair}

not_paused : is_cooled_down memory "d" empty ≡ false
unfolding is_cooled_down held is_empty
not_paused = refl

failures_threshold_example :
    (3 < 3 → is_cooled_down memory "d" (failures memory memory-IsLawful "d" 3 3 60 empty) ≡ false)
    × (◌≡◌ {A = ℕ} 3 3
        → Failures memory memory-IsLawful "d" 0 (failures memory memory-IsLawful "d" 3 3 60 empty)
          × (is_cooled_down memory "d" (failures memory memory-IsLawful "d" 3 3 60 empty) ≡ true))
failures_threshold_example =
    failures_threshold memory memory-IsLawful "d" 3 3 60 empty refl not_paused (omega arith)
      (omega arith)

get_deployments_for_model_lem_example :
    IsSorted (get_deployments_for_model config.deployments "gpt")
    × Perm
        (get_deployments_for_model config.deployments "gpt")
        (keep (λ d. d.model_name == "gpt") config.deployments)
get_deployments_for_model_lem_example = get_deployments_for_model_lem config.deployments "gpt"

eu_is_kept : In gpt_eu (filter_by_region (gpt_us ∷ gpt_eu ∷ []) none (some "eu"))
unfolding filter_by_region constraint_of contains
eu_is_kept = inl refl

abbrev prices : List (String × Pricing ℕ)
prices = ("gpt", record { input = some 2; output = some 3 }) ∷ []

us_is_cheapest : cost_based_select naturals (gpt_us ∷ gpt_eu ∷ []) prices ≡ some gpt_us
unfolding cost_based_select select_min cost_of price known
us_is_cheapest = refl

cost_based_select-least_example :
    In gpt_us (gpt_us ∷ gpt_eu ∷ [])
    × (NoneBelow naturals (cost_of naturals prices) 1000000000 (gpt_us ∷ gpt_eu ∷ [])
        ⊎ ((v : ℕ) × (cost_of naturals prices gpt_us ≡ some v)
            × NoneBelow naturals (cost_of naturals prices) v (gpt_us ∷ gpt_eu ∷ [])))
cost_based_select-least_example =
    cost_based_select-least naturals naturals-IsOrdered (gpt_us ∷ gpt_eu ∷ []) prices gpt_us
      us_is_cheapest

selects_eu : select_deployment naturals memory world config user "gpt" 0 empty ≡ ok (some gpt_eu)
unfolding select_deployment get_deployments_for_model is_cooled_down held is_empty filter_by_region
    constraint_of contains keep_try get_upstream_remaining team_regions forbidden lookup
selects_eu = refl

select_deployment-IsSelected_example :
    IsSelected naturals memory world world-IsFair config user "gpt" empty gpt_eu
select_deployment-IsSelected_example =
    select_deployment-IsSelected naturals memory world world-IsFair config user "gpt" 0 empty gpt_eu
      selects_eu
