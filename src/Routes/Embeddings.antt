-- ===== src/Routes/Embeddings.antt =====
-- routes/embeddings.py `embeddings`: a request passes the limits and the budgets and is sent to one
-- deployment, once. What comes back is a parameter; metrics and logging are left out.
pub mod Charged
use commandclaw_gateway.Prelude.{
  ℕ, String, Bool, true, false, Option, none, some, List, [], ◌∷◌, nat_eq, if◌then◌else◌, Try,
  Error, ok, raise,
}
use commandclaw_gateway.Floats.{Floats}
use commandclaw_gateway.Redis.{Redis}
use commandclaw_gateway.Schemas.{Deployment, IdentityContext}
use commandclaw_gateway.Config.{GatewayConfig}
use commandclaw_gateway.Routing.Strategies.{Pricing}
use commandclaw_gateway.Routing.Router.{World, deployment_busy_counter, select_deployment}
use commandclaw_gateway.Middleware.RateLimiter.{Clock, Request, check_and_increment_rate_limit}
use commandclaw_gateway.Middleware.Limits.{Headers, Outcome}
use commandclaw_gateway.Middleware.CostTracker.{
  SpendLog, SpendContext, Usage, extract_usage_from_response, record_spend,
}
use commandclaw_gateway.Auth.Budgets.{Level, check_budget}

-- A request, with the tokens counted for its input and the new id of its log entry.
pub record Query : Type 0 where
  pub model : String
  pub estimated_tokens : ℕ
  pub request_id : String
  pub log_id : String

-- What comes of the call: a response with its status, or an exception.
pub data Fetched (A : Type 0) : Type 0 where
  responded : ℕ → A → Fetched A
  thrown : Fetched A

module _ (F : Floats) (R : Redis) (W : World F R) (A : Type 0) where
  -- What the client gets: 429 with headers, 429, 503, the response with its own status, a response of
  -- status 200 with its record, or 502.
  pub data Reply : Type 0 where
    limited : Headers R → Reply
    exhausted : Level → Reply
    unavailable : Reply
    passed_on : ℕ → A → Reply
    answered : A → SpendLog F.Float → Reply
    failed : Reply

  -- A deployment: whether a request can be prepared for it, and what it sends.
  pub record Remote : Type 0 where
    pub prepare : Deployment F.Float → Option Error
    pub fetch : Deployment F.Float → Fetched A
    pub usage : A → Option Usage

  abbrev pub Result : Type 0
  Result = Try (Reply × R.State)

  module _ (P : Remote) (config : GatewayConfig F.Float) (table : List (String × Pricing F.Float))
      (dump : SpendLog F.Float → String) (identity : IdentityContext F.Float) (clock : Clock F R)
      (q : Query) where
    charge : A → R.State → Reply × R.State
    unfolding extract_usage_from_response record_spend
    charge v s =
        let (input_tokens, output_tokens) = extract_usage_from_response (P.usage v) in
        let context : SpendContext F.Float = record {
          log_id = q.log_id;
          request_id = q.request_id;
          model = q.model;
          cache_hit = false;
          tags = [];
          now = clock.now;
        } in
        let (log, s') = record_spend F R dump table identity context input_tokens output_tokens s in
        (answered v log, s')

    returned : Fetched A → R.State → Reply × R.State
    unfolding charge
    returned thrown s = (failed, s)
    returned (responded status v) s =
        if nat_eq status 200 then charge v s else (passed_on status v, s)

    sent : Deployment F.Float → Option Error → R.State → Result
    unfolding returned
    sent d (some e) s = raise e
    sent d none s = ok (returned (P.fetch d) (deployment_busy_counter R d.deployment_id s))

    routed : Try (Option (Deployment F.Float)) → R.State → Result
    unfolding sent
    routed (raise e) s = raise e
    routed (ok none) s = ok (unavailable, s)
    routed (ok (some d)) s = sent d (P.prepare d) s

    budgeted : Try (Option Level) → R.State → Result
    unfolding routed select_deployment
    budgeted (raise e) s = raise e
    budgeted (ok (some l)) s = ok (exhausted l, s)
    budgeted (ok none) s = routed (select_deployment F R W config identity q.model 0 s) s

    admit : Try (Outcome R) → Result
    unfolding budgeted check_budget
    admit (raise e) = raise e
    admit (ok (false, headers, s)) = ok (limited headers, s)
    admit (ok (true, headers, s)) = budgeted (check_budget F R identity F.zero s) s

    abbrev pub limits : R.State → Try (Outcome R)
    limits s =
        check_and_increment_rate_limit F R identity clock
          (record {
            model = q.model;
            tokens = q.estimated_tokens;
            request_id = q.request_id;
            cache_hit = false;
          })
          false s

    unfoldable pub embeddings : R.State → Result
    unfolding admit
    embeddings s = admit (limits s)
