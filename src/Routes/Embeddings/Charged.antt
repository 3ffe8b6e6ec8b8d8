-- ===== src/Routes/Embeddings/Charged.antt =====
-- routes/embeddings.py: which requests are charged.
use commandclaw_gateway.Prelude.{
  String, ◌≡◌, refl, ap, ◌∙◌, true, false, Option, none, some, List, nat_eq, Try, Error, ok, raise,
  Bool-cases, inl, inr, arith,
}
use commandclaw_gateway.Floats.{Floats}
use commandclaw_gateway.Redis.{Redis}
use commandclaw_gateway.Schemas.{Deployment, IdentityContext}
use commandclaw_gateway.Config.{GatewayConfig}
use commandclaw_gateway.Routing.Strategies.{Pricing}
use commandclaw_gateway.Routing.Router.{World, deployment_busy_counter, select_deployment}
use commandclaw_gateway.Middleware.RateLimiter.{Clock}
use commandclaw_gateway.Middleware.Limits.{Headers, Outcome}
use commandclaw_gateway.Middleware.CostTracker.{SpendLog}
use commandclaw_gateway.Auth.Budgets.{Level, check_budget}
use commandclaw_gateway.Routes.Embeddings.{
  Query, Fetched, responded, thrown, Reply, limited, exhausted, unavailable, passed_on, answered,
  failed, Remote, Result, charge, returned, sent, routed, budgeted, admit, limits, embeddings,
}

module _ (F : Floats) (R : Redis) (W : World F R) (A : Type 0) (P : Remote F R W A)
    (config : GatewayConfig F.Float) (table : List (String × Pricing F.Float))
    (dump : SpendLog F.Float → String) (identity : IdentityContext F.Float) (clock : Clock F R)
    (q : Query) where
  -- The router has selected `d` on the server as the limits left it.
  abbrev pub Selected : R.State → Deployment F.Float → Type 0
  Selected s d =
      (headers : Headers R) × (s' : R.State) × (limits F R W A P config table dump identity clock q
          s
        ≡ ok (true, headers, s'))
      × (check_budget F R identity F.zero s' ≡ ok none)
      × (select_deployment F R W config identity q.model 0 s' ≡ ok (some d))

  -- What a reply, and the server then, say of a request that found the server `s`.
  abbrev pub Tells : R.State → Reply F R W A → R.State → Type 0
  Tells s (answered v log) t =
      (d : Deployment F.Float) × Selected s d × (P.fetch d ≡ responded 200 v)
  Tells s (passed_on status v) t =
      (d : Deployment F.Float) × (x : Selected s d) × (P.fetch d ≡ responded status v)
      × (t ≡ deployment_busy_counter R d.deployment_id x.1)
  Tells s failed t =
      (d : Deployment F.Float) × (x : Selected s d) × (P.fetch d ≡ thrown)
      × (t ≡ deployment_busy_counter R d.deployment_id x.1)
  Tells s (limited headers) t =
      limits F R W A P config table dump identity clock q s ≡ ok (false, headers, t)
  Tells s (exhausted l) t =
      (headers : Headers R) × (limits F R W A P config table dump identity clock q s
        ≡ ok (true, headers, t))
      × (check_budget F R identity F.zero t ≡ ok (some l))
  Tells s unavailable t =
      (headers : Headers R) × (limits F R W A P config table dump identity clock q s
        ≡ ok (true, headers, t))
      × (check_budget F R identity F.zero t ≡ ok none)
      × (select_deployment F R W config identity q.model 0 t ≡ ok none)

  abbrev pub AllTell : R.State → Result F R W A → Type 0
  AllTell s (raise e) = Unit
  AllTell s (ok (r, t)) = Tells s r t

  returned-Tells :
      (s : R.State) (d : Deployment F.Float) (x : Selected s d) (got : Fetched A)
      → P.fetch d ≡ got
      → let out =
          returned F R W A P config table dump identity clock q got
            (deployment_busy_counter R d.deployment_id x.1) in
        Tells s out.0 out.1
  unfolding returned charge
  returned-Tells s d x thrown e = (d, x, e, refl)
  returned-Tells s d x (responded status v) e = elim (Bool-cases (nat_eq status 200)) [
    | inl fine ↦
        let good : status ≡ 200 = ground arith in rw fine (d, x, e ∙ ap (λ n. responded n v) good)
    | inr other ↦ rw other (d, x, e, refl)
  ]

  sent-Tells :
      (s : R.State) (d : Deployment F.Float) (x : Selected s d) (o : Option Error)
      → AllTell s (sent F R W A P config table dump identity clock q d o x.1)
  unfolding sent
  sent-Tells s d x (some e) = tt
  sent-Tells s d x none = returned-Tells s d x (P.fetch d) refl

  routed-Tells :
      (s s' : R.State) (headers : Headers R) (selected : Try (Option (Deployment F.Float)))
      → limits F R W A P config table dump identity clock q s ≡ ok (true, headers, s')
      → check_budget F R identity F.zero s' ≡ ok none
      → select_deployment F R W config identity q.model 0 s' ≡ selected
      → AllTell s (routed F R W A P config table dump identity clock q selected s')
  unfolding routed
  routed-Tells s s' headers (raise e) within budget h = tt
  routed-Tells s s' headers (ok none) within budget h = (headers, within, budget, h)
  routed-Tells s s' headers (ok (some d)) within budget h =
      sent-Tells s d (headers, s', within, budget, h) (P.prepare d)

  budgeted-Tells :
      (s s' : R.State) (headers : Headers R) (verdict : Try (Option Level))
      → limits F R W A P config table dump identity clock q s ≡ ok (true, headers, s')
      → check_budget F R identity F.zero s' ≡ verdict
      → AllTell s (budgeted F R W A P config table dump identity clock q verdict s')
  unfolding budgeted
  budgeted-Tells s s' headers (raise e) within h = tt
  budgeted-Tells s s' headers (ok (some l)) within h = (headers, within, h)
  budgeted-Tells s s' headers (ok none) within h =
      routed-Tells s s' headers (select_deployment F R W config identity q.model 0 s') within h refl

  admit-Tells :
      (s : R.State) (out : Try (Outcome R))
      → limits F R W A P config table dump identity clock q s ≡ out
      → AllTell s (admit F R W A P config table dump identity clock q out)
  unfolding admit
  admit-Tells s (raise e) h = tt
  admit-Tells s (ok (false, headers, s')) h = h
  admit-Tells s (ok (true, headers, s')) h =
      budgeted-Tells s s' headers (check_budget F R identity F.zero s') h refl

  -- Each reply tells what happened: a response with a record is what a deployment sent with status
  -- 200, which the router had selected within all limits and budgets; a response of another status
  -- and an exception of the call come from such a deployment too, and leave only its busy counter
  -- touched, without a charge; and the other replies name the first check that failed.
  pub embeddings-Tells :
      (s : R.State) → AllTell s (embeddings F R W A P config table dump identity clock q s)
  unfolding embeddings
  embeddings-Tells s = admit-Tells s (limits F R W A P config table dump identity clock q s) refl
