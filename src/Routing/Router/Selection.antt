-- ===== src/Routing/Router/Selection.antt =====
-- routing/router.py: what `select_deployment` guarantees of the deployment that it returns.
use commandclaw_gateway.Prelude.{
  ℕ, String, ◌≡◌, refl, sym, subst, Bool, true, false, not, Option, none, some, List, [], ◌∷◌,
  arith, In, In-keep, In-keep_try, Bool-cases, inl, inr, ltb, Try, ok, raise, ◌>>=◌, >>=-eq-ok,
  keep_try, or_raise, index_error, Option-cases, if◌then◌else◌, ◌⊎◌, ℤ,
}
use commandclaw_gateway.Floats.{Floats}
use commandclaw_gateway.Redis.{Redis}
use commandclaw_gateway.Schemas.{Deployment, IdentityContext}
use commandclaw_gateway.Config.{GatewayConfig, get_deployments_for_model}
use commandclaw_gateway.Routing.Cooldowns.{is_cooled_down}
use commandclaw_gateway.Routing.Strategies.{
  check_context_window, select_min, cost_based_select, cost_of,
}
use commandclaw_gateway.Routing.Strategies.Regions.{
  filter_by_region_sound, IsAllowed, IsAllowed-constraint_of,
}
use commandclaw_gateway.Routing.Strategies.Cheapest.{
  select_min_skip, select_min_take, select_min_pass,
}
use commandclaw_gateway.Routing.Latency.{get_p50_latency}
use commandclaw_gateway.Routing.Router.{
  World, below, int_or_zero, busy_key, has_quota, healthy, non_empty_or, not_depleted, fitting,
  at_parallel_limit, team_regions, least_busy_loop, least_busy, latency_based_select,
  apply_strategy, forbidden, select_among, select_healthy, select_deployment,
}

ok-injective {ℓ} : {A : Type ℓ} (a b : A) → ok a ≡ ok b → a ≡ b
ok-injective a b e = cc

if-eq : {A : Type 0} (b : Bool) (x y d : A) → d ≡ (if b then x else y) → (d ≡ y) ⊎ (d ≡ x)
if-eq true x y d e = inr e
if-eq false x y d e = inl e

-- What follows from either branch follows from the conditional.
if-elim :
    {A : Type 0} {P : Type 0} (b : Bool) (x y : A) {z : A}
    → (x ≡ z → P)
    → (y ≡ z → P)
    → (if b then x else y) ≡ z
    → P
if-elim true x y f g e = f e
if-elim false x y f g e = g e

bind-some : {A : Type 0} (m : Try A) (d : A) → (m >>= λ x. ok (some x)) ≡ ok (some d) → m ≡ ok d
bind-some (ok a) d e = cc
bind-some (raise x) d e = cc

or_raise-eq-ok : {A : Type 0} (o : Option A) (d : A) → or_raise index_error o ≡ ok d → o ≡ some d
or_raise-eq-ok none d e = cc
or_raise-eq-ok (some a) d e = cc

module _ (F : Floats) (R : Redis) (W : World F R) where
  -- The random choice and a custom strategy return one of the deployments that they are given.
  pub record IsFair : Type 0 where
    pub choices :
        (ds : List (Deployment F.Float)) (d : Deployment F.Float) → W.choices ds ≡ ok d → In d ds
    pub plugin :
        (ds : List (Deployment F.Float)) (model : String) (identity : IdentityContext F.Float)
        (d : Deployment F.Float)
        → W.plugin ds model identity ≡ some d
        → In d ds

  In-non_empty_or :
      (xs ys : List (Deployment F.Float)) (d : Deployment F.Float)
      → (In d xs → In d ys)
      → In d (non_empty_or F R W xs ys)
      → In d ys
  unfolding non_empty_or
  In-non_empty_or [] ys d h m = m
  In-non_empty_or (x ∷ xs) ys d h m = h m

  In-not_depleted :
      (s : R.State) (ds left : List (Deployment F.Float)) (d : Deployment F.Float)
      → not_depleted F R W s ds ≡ ok left
      → In d left
      → In d ds
  unfolding not_depleted
  In-not_depleted s ds left d e m =
      let (some_left, kept, e') = >>=-eq-ok (keep_try (has_quota F R W s) ds) _ e in
      In-non_empty_or some_left ds d (In-keep_try _ d ds some_left kept)
        (subst (In d) (sym (ok-injective _ left e')) m)

  In-fitting :
      (tokens : ℕ) (ds : List (Deployment F.Float)) (d : Deployment F.Float)
      → In d (fitting F R W tokens ds)
      → In d ds
  unfolding fitting
  In-fitting tokens ds d m = elim (Bool-cases (ltb 0 tokens)) [
    | inl known ↦
        In-non_empty_or _ ds d
          (λ k. (In-keep (λ (e : Deployment F.Float). check_context_window e tokens) d ds k).0)
          (rw (known, fitting) at m)
    | inr unknown ↦ rw (unknown, fitting) at m
  ]

  In-least_busy_loop :
      (s : R.State) (ds : List (Deployment F.Float)) (best : Deployment F.Float) (n : Option ℤ)
      (d : Deployment F.Float)
      → least_busy_loop F R W s ds best n ≡ ok d
      → (d ≡ best) ⊎ In d ds
  unfolding least_busy_loop
  In-least_busy_loop s [] best n d e = inl (sym (ok-injective best d e))
  In-least_busy_loop s (x ∷ xs) best n d e =
      let (count, _, e') = >>=-eq-ok (int_or_zero (R.get (busy_key x.deployment_id) s)) _ e in
      elim (In-least_busy_loop s xs (if below count n then x else best)
        (if below count n then some count else n) d e') [
          | inl chosen ↦ elim (if-eq (below count n) x best d chosen) [
            | inl old ↦ inl old
            | inr new ↦ inr (inl new)
          ]
          | inr later ↦ inr (inr later)
        ]

  In-select_min :
      (measure : Deployment F.Float → Option F.Float) (ds : List (Deployment F.Float))
      (best : Deployment F.Float) (v : F.Float)
      → (select_min F measure ds best v ≡ best) ⊎ In (select_min F measure ds best v) ds
  In-select_min measure [] best v = inl (unfold select_min in refl)
  In-select_min measure (d ∷ ds) best v = elim (Option-cases (measure d)) [
    | inl unknown ↦
        subst P (sym (select_min_skip F measure d ds best v unknown))
          (later (In-select_min measure ds best v))
    | inr (w, m) ↦ elim (Bool-cases (F.lt w v)) [
      | inl less ↦
          subst P (sym (select_min_take F measure d ds best v w m less))
            (inr (In-select_min measure ds d w))
      | inr other ↦
          subst P (sym (select_min_pass F measure d ds best v w m other))
            (later (In-select_min measure ds best v))
    ]
  ]
    where
      P : Deployment F.Float → Type 0
      P r = (r ≡ best) ⊎ In r (d ∷ ds)

      later : {r : Deployment F.Float} → (r ≡ best) ⊎ In r ds → P r
      later (inl same) = inl same
      later (inr there) = inr (inr there)

  In-least_busy :
      (s : R.State) (ds : List (Deployment F.Float)) (d : Deployment F.Float)
      → least_busy F R W s ds ≡ ok d
      → In d ds
  unfolding least_busy
  In-least_busy s [] d e = absurd (cc)
  In-least_busy s (x ∷ xs) d e = elim (In-least_busy_loop s (x ∷ xs) x none d e) [
    | inl start ↦ inl start
    | inr listed ↦ listed
  ]

  -- A selection by a least measure that starts at the first deployment.
  In-select_min_first :
      (measure : Deployment F.Float → Option F.Float) (x : Deployment F.Float)
      (xs : List (Deployment F.Float)) (d : Deployment F.Float)
      → select_min F measure (x ∷ xs) x F.inf ≡ d
      → In d (x ∷ xs)
  In-select_min_first measure x xs d e =
      subst (λ r. In r (x ∷ xs)) e
        (elim (In-select_min measure (x ∷ xs) x F.inf) [
          | inl start ↦ inl start
          | inr listed ↦ listed
        ])

  In-latency_based_select :
      (s : R.State) (ds : List (Deployment F.Float)) (d : Deployment F.Float)
      → latency_based_select F R W s ds ≡ ok d
      → In d ds
  unfolding latency_based_select
  In-latency_based_select s [] d e = absurd (cc)
  In-latency_based_select s (x ∷ xs) d e =
      In-select_min_first (λ y. get_p50_latency F R y.deployment_id W.now s) x xs d
        (ok-injective _ d e)

  In-cost_based_select :
      (ds : List (Deployment F.Float)) (d : Deployment F.Float)
      → cost_based_select F ds W.pricing_table ≡ some d
      → In d ds
  unfolding cost_based_select
  In-cost_based_select [] d e = absurd (cc)
  In-cost_based_select (x ∷ xs) d e = In-select_min_first (cost_of F W.pricing_table) x xs d (cc)

  module _ (fair : IsFair) (config : GatewayConfig F.Float)
      (identity : IdentityContext F.Float) where
    In-apply_strategy :
        (model : String) (s : R.State) (ds : List (Deployment F.Float)) (d : Deployment F.Float)
        → apply_strategy F R W config identity model s ds ≡ ok (some d)
        → In d ds
    unfolding apply_strategy
    In-apply_strategy model s ds d =
        if-elim _ _ _ (λ e. In-least_busy s ds d (bind-some _ d e))
          (if-elim _ _ _ (λ e. In-latency_based_select s ds d (bind-some _ d e))
            (if-elim _ _ _ (λ e. In-cost_based_select ds d (or_raise-eq-ok _ d (bind-some _ d e)))
              (if-elim _ _ _ (λ e. fair.plugin ds model identity d (ok-injective _ (some d) e))
                (λ e. fair.choices ds d (bind-some _ d e)))))

    In-select_among :
        (model : String) (tokens : ℕ) (s : R.State) (ds : List (Deployment F.Float))
        (d : Deployment F.Float)
        → select_among F R W config identity model tokens s ds ≡ ok (some d)
        → In d ds
    unfolding select_among
    In-select_among model tokens s [] d e = absurd (cc)
    In-select_among model tokens s (x ∷ xs) d e =
        let (left, kept, e') = >>=-eq-ok (not_depleted F R W s (x ∷ xs)) _ e in
        let (full, _, e'') =
          >>=-eq-ok (at_parallel_limit F R W s identity (fitting F R W tokens left)) _ e' in
        In-not_depleted s (x ∷ xs) left d kept (
          In-fitting tokens left d
            (if-elim full _ _ (λ none_left. absurd (cc)) (In-apply_strategy model s _ d) e''))

    -- What the deployment that serves a request has passed, with the regions of the team of the
    -- identity as the server had them.
    pub record IsSelected (model : String) (s : R.State) (d : Deployment F.Float) : Type 0 where
      pub allowed : forbidden F R W identity model ≡ false
      pub configured : In d (get_deployments_for_model config.deployments model)
      pub up : is_cooled_down R d.deployment_id s ≡ false
      pub regions : Option (List String)
      pub team : team_regions F R W s identity ≡ ok regions
      pub region : IsAllowed identity.region_constraint regions d.region

    select_healthy-IsSelected :
        (model : String) (tokens : ℕ) (s : R.State) (ds : List (Deployment F.Float))
        (d : Deployment F.Float)
        → forbidden F R W identity model ≡ false
        → ds ≡ healthy F R W s (get_deployments_for_model config.deployments model)
        → select_healthy F R W config identity model tokens s ds ≡ ok (some d)
        → IsSelected model s d
    unfolding select_healthy healthy
    select_healthy-IsSelected model tokens s [] d allowed h e = absurd (cc)
    select_healthy-IsSelected model tokens s (x ∷ xs) d allowed h e =
        let (regions, team, e') = >>=-eq-ok (team_regions F R W s identity) _ e in
        let (listed, region) =
          filter_by_region_sound (x ∷ xs) regions identity.region_constraint d
            (In-select_among model tokens s _ d e') in
        let (configured, up) =
          In-keep (λ (y : Deployment F.Float). not (is_cooled_down R y.deployment_id s)) d _
            (subst (In d) h listed) in
        record {
          allowed = allowed;
          configured = configured;
          up = ground arith;
          regions = regions;
          team = team;
          region = IsAllowed-constraint_of identity.region_constraint regions d.region region;
        }

    -- With a fair random choice and custom strategy: a deployment that is selected serves the model
    -- asked for and is not cooled down, and the model is on the identity's allowlist where there is
    -- one. It lies in the identity's own region where that is named, and otherwise in one of the
    -- regions of its team where there are any.
    pub select_deployment-IsSelected :
        (model : String) (tokens : ℕ) (s : R.State) (d : Deployment F.Float)
        → select_deployment F R W config identity model tokens s ≡ ok (some d)
        → IsSelected model s d
    unfolding select_deployment
    select_deployment-IsSelected model tokens s d e =
        elim (Bool-cases (forbidden F R W identity model)) [
          | inl no_access ↦ absurd (cc (rw (no_access, select_deployment) at e))
          | inr allowed ↦
              select_healthy-IsSelected model tokens s _ d allowed refl
                (rw (allowed, select_deployment) at e)
        ]
