-- ===== src/Routing/Router.antt =====
-- routing/router.py: the filters a deployment passes, and the strategy that picks one.
-- What it calls outside the program is a parameter: `loads` is `json.loads` on a list of texts,
-- `choices` is `random.choices`, `plugin` is a custom strategy that a configuration names. `now`
-- is `time.time` at the time of the request, in whole seconds.
pub mod Selection
use commandclaw_gateway.Prelude.{
  ℕ, suc, ◌+◌, String, Bool, true, false, not, ◌&&◌, ◌||◌, Option, none, some, List, [], ◌∷◌, ◌==◌,
  ltb, nat_eq, if◌then◌else◌, keep, contains, is_empty, lookup, truthy, map, ◌<>◌, ℤ, pos, ◌+ℤ◌,
  ltb_ℤ, is_positive, int, Try, ok, raise, ◌>>=◌, or_raise, value_error, json_error, index_error,
  keep_try,
}
use commandclaw_gateway.Floats.{Floats}
use commandclaw_gateway.Redis.{Redis}
use commandclaw_gateway.Schemas.{Deployment, IdentityContext}
use commandclaw_gateway.Config.{RouterSettings, GatewayConfig, get_deployments_for_model}
use commandclaw_gateway.Routing.Cooldowns.{is_cooled_down}
use commandclaw_gateway.Routing.Latency.{get_p50_latency}
use commandclaw_gateway.Routing.Strategies.{
  Pricing, filter_by_region, check_context_window, select_min, cost_based_select,
}

-- What is outside the program.
pub record World (F : Floats) (R : Redis) : Type 0 where
  pub loads : String → Option (List String)
  pub choices : List (Deployment F.Float) → Try (Deployment F.Float)
  pub plugin :
      List (Deployment F.Float) → String → IdentityContext F.Float → Option (Deployment F.Float)
  pub now : ℕ
  pub pricing_table : List (String × Pricing F.Float)

abbrev pub busy_key : String → String
busy_key deployment_id = "gateway:busy:" <> deployment_id

-- The counter of a busy deployment, before and after a call that leaves the server alone.
abbrev pub deployment_busy_counter : (R : Redis) → String → R.State → R.State
deployment_busy_counter R deployment_id s =
    let key = busy_key deployment_id in R.decr key (R.expire key 300 (R.incr key s).1)

-- `int(text or "0")`
abbrev pub int_or_zero : Option String → Try ℤ
int_or_zero none = ok (pos 0)
int_or_zero (some text) = if text == "" then ok (pos 0) else or_raise value_error (int text)

-- `count < min_busy`
abbrev pub below : ℤ → Option ℤ → Bool
below count none = true
below count (some n) = ltb_ℤ count n

module _ (F : Floats) (R : Redis) (W : World F R) where
  -- middleware/rate_limiter.py `get_upstream_remaining`
  unfoldable pub get_upstream_remaining : String → R.State → Try (Option ℤ)
  get_upstream_remaining deployment_id s =
      elim (R.get ("gateway:upstream:remaining:" <> deployment_id) s) [
        | none ↦ ok none
        | some text ↦
            if text == "" then ok none else do n ← or_raise value_error (int text); ok (some n)
      ]

  has_quota : R.State → Deployment F.Float → Try Bool
  has_quota s d = do
    remaining ← get_upstream_remaining d.deployment_id s
    ok (elim remaining [ none ↦ true | some n ↦ is_positive n ])

  healthy : R.State → List (Deployment F.Float) → List (Deployment F.Float)
  unfolding keep
  healthy s ds = keep (λ d. not (is_cooled_down R d.deployment_id s)) ds

  -- `xs if xs else ys`
  non_empty_or : List (Deployment F.Float) → List (Deployment F.Float) → List (Deployment F.Float)
  non_empty_or [] ys = ys
  non_empty_or (x ∷ xs) ys = x ∷ xs

  not_depleted : R.State → List (Deployment F.Float) → Try (List (Deployment F.Float))
  unfolding has_quota non_empty_or
  not_depleted s ds = do some_left ← keep_try (has_quota s) ds; ok (non_empty_or some_left ds)

  fitting : ℕ → List (Deployment F.Float) → List (Deployment F.Float)
  unfolding keep check_context_window non_empty_or
  fitting tokens ds =
      if ltb 0 tokens then non_empty_or (keep (λ d. check_context_window d tokens) ds) ds else ds

  busy_count : R.State → List (Deployment F.Float) → ℤ → Try ℤ
  busy_count s [] n = ok n
  busy_count s (d ∷ ds) n = do
    c ← int_or_zero (R.get (busy_key d.deployment_id) s)
    busy_count s ds (n +ℤ c)

  -- Is the identity at its limit of parallel requests?
  at_parallel_limit : R.State → IdentityContext F.Float → List (Deployment F.Float) → Try Bool
  unfolding busy_count
  at_parallel_limit s identity ds = elim identity.max_parallel_requests [
    | none ↦ ok false
    | some n ↦
        if nat_eq n 0
        then ok false
        else do count ← busy_count s ds (pos 0); ok (not (ltb_ℤ count (pos n)))
  ]

  -- The regions of the identity's team.
  unfoldable pub team_regions : R.State → IdentityContext F.Float → Try (Option (List String))
  team_regions s identity =
      if truthy identity.team_id
      then elim identity.team_id [
        | none ↦ ok none
        | some team ↦ elim (lookup "allowed_regions" (R.hgetall ("gateway:team:" <> team) s)) [
          | none ↦ ok none
          | some text ↦
              if text == ""
              then ok none
              else do regions ← or_raise json_error (W.loads text); ok (some regions)
        ]
      ]
      else ok none

  -- `_least_busy`: `none` is the infinite count before the first deployment.
  least_busy_loop :
      R.State → List (Deployment F.Float) → Deployment F.Float → Option ℤ → Try (Deployment F.Float)
  least_busy_loop s [] selected min_busy = ok selected
  least_busy_loop s (d ∷ ds) selected min_busy = do
    count ← int_or_zero (R.get (busy_key d.deployment_id) s)
    let less = below count min_busy
    least_busy_loop s ds (if less then d else selected) (if less then some count else min_busy)

  least_busy : R.State → List (Deployment F.Float) → Try (Deployment F.Float)
  least_busy s [] = raise index_error
  least_busy s (d ∷ ds) = least_busy_loop s (d ∷ ds) d none

  latency_based_select : R.State → List (Deployment F.Float) → Try (Deployment F.Float)
  unfolding select_min get_p50_latency
  latency_based_select s [] = raise index_error
  latency_based_select s (d ∷ ds) =
      ok (select_min F (λ e. get_p50_latency F R e.deployment_id W.now s) (d ∷ ds) d F.inf)

  apply_strategy :
      GatewayConfig F.Float
      → IdentityContext F.Float
      → String
      → R.State
      → List (Deployment F.Float)
      → Try (Option (Deployment F.Float))
  unfolding least_busy least_busy_loop latency_based_select
  apply_strategy config identity model s ds =
      let strategy = config.router_settings.routing_strategy in
      if strategy == "least-busy"
      then (do d ← least_busy s ds; ok (some d))
      else if strategy == "latency-based"
      then (do d ← latency_based_select s ds; ok (some d))
      else if strategy == "cost-based"
      then (do d ← or_raise index_error (cost_based_select F ds W.pricing_table); ok (some d))
      else if strategy == "custom" && truthy config.router_settings.custom_routing_plugin
      then ok (W.plugin ds model identity)
      else do d ← W.choices ds; ok (some d)

  -- `identity.model_allowlist and model_name not in identity.model_allowlist`
  unfoldable pub forbidden : IdentityContext F.Float → String → Bool
  forbidden identity model = elim identity.model_allowlist [
    | none ↦ false
    | some models ↦ not (is_empty models) && not (contains models model)
  ]

  -- The last filters, on deployments that are healthy and in the right region.
  select_among :
      GatewayConfig F.Float
      → IdentityContext F.Float
      → String
      → ℕ
      → R.State
      → List (Deployment F.Float)
      → Try (Option (Deployment F.Float))
  unfolding not_depleted fitting at_parallel_limit apply_strategy
  select_among config identity model tokens s [] = ok none
  select_among config identity model tokens s (d ∷ ds) = do
    left ← not_depleted s (d ∷ ds)
    let fits = fitting tokens left
    full ← at_parallel_limit s identity fits
    if full then ok none else apply_strategy config identity model s fits

  select_healthy :
      GatewayConfig F.Float
      → IdentityContext F.Float
      → String
      → ℕ
      → R.State
      → List (Deployment F.Float)
      → Try (Option (Deployment F.Float))
  unfolding team_regions select_among
  select_healthy config identity model tokens s [] = ok none
  select_healthy config identity model tokens s (d ∷ ds) = do
    regions ← team_regions s identity
    select_among config identity model tokens s
        (filter_by_region (d ∷ ds) regions identity.region_constraint)

  unfoldable pub select_deployment :
      GatewayConfig F.Float
      → IdentityContext F.Float
      → String
      → ℕ
      → R.State
      → Try (Option (Deployment F.Float))
  unfolding forbidden healthy select_healthy
  select_deployment config identity model tokens s =
      if forbidden identity model
      then ok none
      else select_healthy config identity model tokens s
          (healthy s (get_deployments_for_model config.deployments model))
