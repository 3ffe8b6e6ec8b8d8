-- ===== src/Middleware/RateLimiter.antt =====
-- middleware/rate_limiter.py: the token bucket, whose Lua script runs at once on the server, and the
-- chain of all limits. Logging is left out; `today` and `month` are what `time.strftime` gives.
pub mod Window
pub mod Recent
pub mod Refinement
pub mod Chain
use commandclaw_gateway.Prelude.{
  ℕ, zero, ◌+◌, ◌-◌, String, Bool, true, false, not, ◌&&◌, ◌||◌, Option, none, some, List, [], ◌∷◌,
  ◌==◌, ltb, leb, nat_eq, if◌then◌else◌, lookup, insert, is_empty, truthy, ◌<>◌, ℤ, pos, ◌+ℤ◌,
  ltb_ℤ, is_positive, int, nat, str, Try, ok, raise, ◌>>=◌, or_raise, value_error,
}
use commandclaw_gateway.Floats.{Floats}
use commandclaw_gateway.Redis.{Redis}
use commandclaw_gateway.Schemas.{IdentityContext, ModelLimits}
use commandclaw_gateway.Routing.Router.{int_or_zero}
use commandclaw_gateway.Middleware.Limits.{
  Headers, Outcome, and_then, check_quota, check_sliding_window, check_tpm, drop_old, in_window,
  key_rpm, key_tpm, last_part, limit_field, limit_quota, limit_rpm, limit_tpm, or_empty, refuse,
  remaining, set_limit, stored_rpm, stored_tpm, tokens_of, total,
}

module _ (F : Floats) (R : Redis) where
  abbrev number_or : F.Float → Option String → F.Float
  number_or d none = d
  number_or d (some text) = elim (F.parse text) [ none ↦ d | some x ↦ x ]

  -- `_TOKEN_BUCKET_LUA`: whether the tokens suffice, and how many are left.
  unfoldable pub token_bucket_check :
      String → ℕ → F.Float → ℕ → F.Float → R.State → Bool × F.Float × R.State
  unfolding lookup
  token_bucket_check key capacity refill_rate requested now s =
      let stored = R.hgetall key s in
      let tokens = number_or (F.of_nat capacity) (lookup "tokens" stored) in
      let last_refill = number_or now (lookup "last_refill" stored) in
      let filled = F.add tokens (F.mul (F.sub now last_refill) refill_rate) in
      let level = if F.lt (F.of_nat capacity) filled then F.of_nat capacity else filled in
      let enough = not (F.lt level (F.of_nat requested)) in
      let left = if enough then F.sub level (F.of_nat requested) else level in
      let fields = ("tokens", F.print left) ∷ ("last_refill", F.print now) ∷ [] in
      (enough, left, R.expire key 120 (R.hset key fields s).1)

  -- The key's own requests per minute, by a token bucket.
  unfoldable pub key_bucket : String → ℕ → F.Float → Headers R → R.State → Try (Outcome R)
  unfolding token_bucket_check
  key_bucket key limit now headers s =
      let (allowed, left, s') =
        token_bucket_check key limit (F.div (F.of_nat limit) (F.of_nat 60)) 1 now s in
      let shown = insert "x-ratelimit-limit-requests" (str limit) headers in
      ok (
        refuse R "1" allowed (insert "x-ratelimit-remaining-requests" (str (F.floor left)) shown)
          s')

  -- The clock's readings during a request.
  pub record Clock : Type 0 where
    pub now_ms : ℕ
    pub now : F.Float
    pub today : String
    pub month : String

  -- A request for the limits.
  pub record Request : Type 0 where
    pub model : String
    pub tokens : ℕ
    pub request_id : String
    pub cache_hit : Bool

  module _ (identity : IdentityContext F.Float) (clock : Clock) (q : Request) where
    unfoldable pub own_requests : Bool → Headers R → R.State → Try (Outcome R)
    unfolding key_rpm key_bucket
    own_requests use_token_bucket headers s =
        let limit = set_limit identity.rpm_limit in
        if nat_eq limit 0
        then ok (true, headers, s)
        else if use_token_bucket
        then key_bucket ("gateway:rl:tb:key:" <> identity.key_id <> ":rpm") limit clock.now headers
            s
        else key_rpm R ("gateway:rl:key:" <> identity.key_id <> ":rpm") limit clock.now_ms
            q.request_id headers s

    unfoldable pub own_tokens : Headers R → R.State → Try (Outcome R)
    unfolding key_tpm
    own_tokens headers s =
        key_tpm R ("gateway:rl:key:" <> identity.key_id <> ":tpm") (set_limit identity.tpm_limit)
          q.tokens q.cache_hit clock.now_ms headers s

    unfoldable pub limits_of_model : Option ModelLimits → Headers R → R.State → Try (Outcome R)
    unfolding limit_rpm limit_tpm
    limits_of_model none headers s = ok (true, headers, s)
    limits_of_model (some limits) headers s =
        let key = "gateway:rl:key:" <> identity.key_id <> ":model:" <> q.model in
        and_then R
          (limit_rpm R (key <> ":rpm") (set_limit limits.rpm) clock.now_ms q.request_id headers s)
          (λ headers s.
            limit_tpm R (key <> ":tpm") (set_limit limits.tpm) q.tokens q.cache_hit clock.now_ms
              headers s)

    unfoldable pub model_limits : Headers R → R.State → Try (Outcome R)
    unfolding limits_of_model lookup
    model_limits headers s =
        limits_of_model (lookup q.model identity.metadata.per_model_limits) headers s

    unfoldable pub user_limit : Headers R → R.State → Try (Outcome R)
    unfolding limit_rpm
    user_limit headers s =
        limit_rpm R ("gateway:rl:user:" <> identity.user_id <> ":rpm")
          (set_limit identity.metadata.user_rpm_limit) clock.now_ms q.request_id headers s

    unfoldable pub limits_of_team : String → Headers R → R.State → Try (Outcome R)
    unfolding limit_field stored_rpm stored_tpm
    limits_of_team team headers s = do
      let stored = R.hgetall ("gateway:team:" <> team) s
      rpm ← limit_field R "rpm_limit" stored
      and_then R
          (stored_rpm R ("gateway:rl:team:" <> team <> ":rpm") rpm clock.now_ms q.request_id headers
            s)
          (λ headers s. do
            tpm ← limit_field R "tpm_limit" stored
            stored_tpm R ("gateway:rl:team:" <> team <> ":tpm") tpm q.tokens q.cache_hit
                clock.now_ms headers s)

    unfoldable pub team_limits : Headers R → R.State → Try (Outcome R)
    unfolding limits_of_team
    team_limits headers s =
        if truthy identity.team_id
        then limits_of_team (or_empty identity.team_id) headers s
        else ok (true, headers, s)

    unfoldable pub limit_of_org : String → Headers R → R.State → Try (Outcome R)
    unfolding limit_field stored_rpm
    limit_of_org org headers s = do
      rpm ← limit_field R "rpm_limit" (R.hgetall ("gateway:org:" <> org) s)
      stored_rpm R ("gateway:rl:org:" <> org <> ":rpm") rpm clock.now_ms q.request_id headers s

    unfoldable pub org_limit : Headers R → R.State → Try (Outcome R)
    unfolding limit_of_org
    org_limit headers s =
        if truthy identity.org_id
        then limit_of_org (or_empty identity.org_id) headers s
        else ok (true, headers, s)

    unfoldable pub global_limit : Headers R → R.State → Try (Outcome R)
    unfolding limit_rpm lookup
    global_limit headers s =
        limit_rpm R ("gateway:rl:model:" <> q.model <> ":rpm")
          (set_limit (lookup q.model identity.metadata.global_model_rpm)) clock.now_ms q.request_id
          headers s

    unfoldable pub daily_quota : Headers R → R.State → Try (Outcome R)
    unfolding limit_quota
    daily_quota headers s =
        limit_quota R ("gateway:quota:key:" <> identity.key_id <> ":daily:" <> clock.today)
          (set_limit identity.metadata.daily_token_quota) q.tokens 86400 "3600" q.cache_hit headers
          s

    unfoldable pub monthly_quota : Headers R → R.State → Try (Outcome R)
    unfolding limit_quota
    monthly_quota headers s =
        limit_quota R ("gateway:quota:key:" <> identity.key_id <> ":monthly:" <> clock.month)
          (set_limit identity.metadata.monthly_token_quota) q.tokens 2592000 "86400" q.cache_hit
          headers s

    unfoldable pub check_and_increment_rate_limit : Bool → R.State → Try (Outcome R)
    unfolding own_requests own_tokens model_limits user_limit team_limits org_limit global_limit
        daily_quota monthly_quota
    check_and_increment_rate_limit use_token_bucket s =
        and_then R (own_requests use_token_bucket [] s) (λ h s. and_then R (own_tokens h s) (λ h s.
          and_then R (model_limits h s) (λ h s. and_then R (user_limit h s) (λ h s.
            and_then R (team_limits h s) (λ h s. and_then R (org_limit h s) (λ h s.
              and_then R (global_limit h s)
                (λ h s. and_then R (daily_quota h s) monthly_quota)))))))

-- `provider_headers` are those of a response: the remaining requests that it names are kept.
unfoldable pub update_upstream_limits :
    (R : Redis) → String → List (String × String) → R.State → R.State
unfolding lookup
update_upstream_limits R deployment_id provider_headers s =
    elim (lookup "x-ratelimit-remaining-requests" provider_headers) [
      | none ↦ s
      | some n ↦ R.setex ("gateway:upstream:remaining:" <> deployment_id) 120 n s
    ]
