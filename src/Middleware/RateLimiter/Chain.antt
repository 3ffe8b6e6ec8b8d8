-- ===== src/Middleware/RateLimiter/Chain.antt =====
-- middleware/rate_limiter.py `check_and_increment_rate_limit`: the chain of limits.
use commandclaw_gateway.Prelude.{
  ℕ, ◌<◌, String, ◌≡◌, ◌≢◌, refl, subst, Bool, true, false, Option, none, some, [], ap, arith,
  if◌then◌else◌, lookup, lookup-insert, truthy, length, nat_eq, ℤ, pos, Try, ok, raise, ◌>>=◌, ◌<>◌,
}
use commandclaw_gateway.Floats.{Floats}
use commandclaw_gateway.Redis.{Redis, IsLawful}
use commandclaw_gateway.Schemas.{IdentityContext, ModelLimits}
use commandclaw_gateway.Middleware.RateLimiter.{
  key_bucket, Clock, Request, own_requests, own_tokens, model_limits, limits_of_model, user_limit,
  limits_of_team, team_limits, limit_of_org, org_limit, global_limit, daily_quota, monthly_quota,
  check_and_increment_rate_limit,
}
use commandclaw_gateway.Middleware.Limits.{
  Headers, Outcome, limit_field, and_then, refuse, set_limit, limit_rpm, limit_tpm, limit_quota,
  stored_rpm, stored_tpm, key_rpm, key_tpm,
}
use commandclaw_gateway.Middleware.RateLimiter.Window.{young, check_sliding_window_lem}

module _ (R : Redis) where
  -- The headers of a refusal name a time.
  abbrev Named : Try (Outcome R) → Type 0
  Named (raise e) = Unit
  Named (ok (true, headers, s)) = Unit
  Named (ok (false, headers, s)) = (t : String) × (lookup "retry-after" headers ≡ some t)

  record Tells (m : Try (Outcome R)) : Type 0 where
    named : Named m

  allowed-Tells : (h : Headers R) (s : R.State) → Tells (ok (true, h, s))
  allowed-Tells h s = record { named = tt }

  refuse-Tells :
      (after : String) (b : Bool) (h : Headers R) (s : R.State) → Tells (ok (refuse R after b h s))
  refuse-Tells after true h s = record { named = tt }
  refuse-Tells after false h s = record {
    named = (after, lookup-insert "retry-after" "retry-after" after h);
  }

  and_then-Tells :
      (m : Try (Outcome R)) (f : Headers R → R.State → Try (Outcome R))
      → Tells m
      → ((h : Headers R) (s : R.State) → Tells (f h s))
      → Tells (and_then R m f)
  and_then-Tells (raise e) f t g = record { named = tt }
  and_then-Tells (ok (true, h, s)) f t g = g h s
  and_then-Tells (ok (false, h, s)) f t g = t

  if-Tells : (b : Bool) (x y : Try (Outcome R)) → Tells x → Tells y → Tells (if b then x else y)
  if-Tells true x y t u = t
  if-Tells false x y t u = u

  bind-Tells :
      {B : Type 0} (m : Try B) (f : B → Try (Outcome R)) → ((b : B) → Tells (f b)) → Tells (m >>= f)
  bind-Tells (ok b) f g = g b
  bind-Tells (raise e) f g = record { named = tt }

  limit_rpm-Tells :
      (key : String) (limit now : ℕ) (id : String) (h : Headers R) (s : R.State)
      → Tells (limit_rpm R key limit now id h s)
  unfolding limit_rpm
  limit_rpm-Tells key limit now id h s =
      if-Tells _ _ _ (allowed-Tells _ _) (refuse-Tells "60" _ h _)

  limit_tpm-Tells :
      (key : String) (limit tokens : ℕ) (hit : Bool) (now : ℕ) (h : Headers R) (s : R.State)
      → Tells (limit_tpm R key limit tokens hit now h s)
  unfolding limit_tpm
  limit_tpm-Tells key limit tokens hit now h s =
      if-Tells _ _ _ (allowed-Tells _ _) (refuse-Tells "60" _ h _)

  stored_rpm-Tells :
      (key : String) (limit : ℤ) (now : ℕ) (id : String) (h : Headers R) (s : R.State)
      → Tells (stored_rpm R key limit now id h s)
  unfolding stored_rpm
  stored_rpm-Tells key (pos n) now id h s = limit_rpm-Tells key n now id h s
  stored_rpm-Tells key (ℤ.negsuc n) now id h s = refuse-Tells "60" false h _

  stored_tpm-Tells :
      (key : String) (limit : ℤ) (tokens : ℕ) (hit : Bool) (now : ℕ) (h : Headers R) (s : R.State)
      → Tells (stored_tpm R key limit tokens hit now h s)
  unfolding stored_tpm
  stored_tpm-Tells key (pos n) tokens hit now h s = limit_tpm-Tells key n tokens hit now h s
  stored_tpm-Tells key (ℤ.negsuc n) tokens hit now h s =
      if-Tells _ _ _ (allowed-Tells _ _) (refuse-Tells "60" false h _)

  limit_quota-Tells :
      (key : String) (limit tokens period : ℕ) (after : String) (hit : Bool) (h : Headers R)
      (s : R.State)
      → Tells (limit_quota R key limit tokens period after hit h s)
  unfolding limit_quota
  limit_quota-Tells key limit tokens period after hit h s =
      if-Tells _ _ _ (allowed-Tells _ _)
        (bind-Tells _ _ (λ result. refuse-Tells after result.0 h _))

  -- What came before an allowed outcome was allowed.
  and_then-eq-true :
      (m : Try (Outcome R)) (f : Headers R → R.State → Try (Outcome R)) (h' : Headers R)
      (s' : R.State)
      → and_then R m f ≡ ok (true, h', s')
      → (h : Headers R) × (s : R.State) × (m ≡ ok (true, h, s))
  and_then-eq-true (raise e) f h' s' eq = cc
  and_then-eq-true (ok (true, h, s)) f h' s' eq = (h, s, refl)
  and_then-eq-true (ok (false, h, s)) f h' s' eq = absurd (different (ap allowed eq))
    where
      allowed : Try (Outcome R) → Bool
      allowed (raise e) = false
      allowed (ok out) = out.0

      different : false ≡ true → ⊥
      different e = cc

  refuse-eq-true :
      (after : String) (b : Bool) (h h' : Headers R) (s s' : R.State)
      → ok (refuse R after b h s) ≡ ok (true, h', s')
      → b ≡ true
  refuse-eq-true after true h h' s s' e = refl
  refuse-eq-true after false h h' s s' e = ap allowed e
    where
      allowed : Try (Outcome R) → Bool
      allowed (raise e) = false
      allowed (ok out) = out.0

module _ (F : Floats) (R : Redis) (identity : IdentityContext F.Float) (clock : Clock F R)
    (q : Request F R) where
  own_requests-Tells :
      (bucket : Bool) (h : Headers R) (s : R.State)
      → Tells R (own_requests F R identity clock q bucket h s)
  unfolding own_requests key_bucket key_rpm
  own_requests-Tells bucket h s =
      if-Tells R _ _ _ (allowed-Tells R _ _)
        (if-Tells R bucket _ _ (refuse-Tells R "1" _ _ _) (refuse-Tells R "60" _ _ _))

  own_tokens-Tells : (h : Headers R) (s : R.State) → Tells R (own_tokens F R identity clock q h s)
  unfolding own_tokens key_tpm
  own_tokens-Tells h s = if-Tells R _ _ _ (allowed-Tells R _ _) (refuse-Tells R "60" _ _ _)

  limits_of_model-Tells :
      (o : Option ModelLimits) (h : Headers R) (s : R.State)
      → Tells R (limits_of_model F R identity clock q o h s)
  unfolding limits_of_model
  limits_of_model-Tells none h s = allowed-Tells R h s
  limits_of_model-Tells (some limits) h s =
      let key = "gateway:rl:key:" <> identity.key_id <> ":model:" <> q.model in
      and_then-Tells R _ _
        (limit_rpm-Tells R (key <> ":rpm") (set_limit limits.rpm) clock.now_ms q.request_id h s)
        (λ h s.
          limit_tpm-Tells R (key <> ":tpm") (set_limit limits.tpm) q.tokens q.cache_hit clock.now_ms
            h s)

  limits_of_team-Tells :
      (team : String) (h : Headers R) (s : R.State)
      → Tells R (limits_of_team F R identity clock q team h s)
  unfolding limits_of_team
  limits_of_team-Tells team h s =
      let stored = R.hgetall ("gateway:team:" <> team) s in
      bind-Tells R (limit_field R "rpm_limit" stored) _ (λ rpm.
        and_then-Tells R _ _
          (stored_rpm-Tells R ("gateway:rl:team:" <> team <> ":rpm") rpm clock.now_ms q.request_id h
            s)
          (λ h s. bind-Tells R (limit_field R "tpm_limit" stored) _ (λ tpm.
            stored_tpm-Tells R ("gateway:rl:team:" <> team <> ":tpm") tpm q.tokens q.cache_hit
              clock.now_ms h s)))

  team_limits-Tells : (h : Headers R) (s : R.State) → Tells R (team_limits F R identity clock q h s)
  unfolding team_limits
  team_limits-Tells h s =
      if-Tells R (truthy identity.team_id) _ _ (limits_of_team-Tells _ h s) (allowed-Tells R h s)

  limit_of_org-Tells :
      (org : String) (h : Headers R) (s : R.State)
      → Tells R (limit_of_org F R identity clock q org h s)
  unfolding limit_of_org
  limit_of_org-Tells org h s =
      bind-Tells R (limit_field R "rpm_limit" (R.hgetall ("gateway:org:" <> org) s)) _ (λ rpm.
        stored_rpm-Tells R ("gateway:rl:org:" <> org <> ":rpm") rpm clock.now_ms q.request_id h s)

  org_limit-Tells : (h : Headers R) (s : R.State) → Tells R (org_limit F R identity clock q h s)
  unfolding org_limit
  org_limit-Tells h s =
      if-Tells R (truthy identity.org_id) _ _ (limit_of_org-Tells _ h s) (allowed-Tells R h s)

  user_limit-Tells : (h : Headers R) (s : R.State) → Tells R (user_limit F R identity clock q h s)
  unfolding user_limit
  user_limit-Tells h s =
      limit_rpm-Tells R ("gateway:rl:user:" <> identity.user_id <> ":rpm")
        (set_limit identity.metadata.user_rpm_limit) clock.now_ms q.request_id h s

  global_limit-Tells :
      (h : Headers R) (s : R.State) → Tells R (global_limit F R identity clock q h s)
  unfolding global_limit
  global_limit-Tells h s =
      limit_rpm-Tells R ("gateway:rl:model:" <> q.model <> ":rpm")
        (set_limit (lookup q.model identity.metadata.global_model_rpm)) clock.now_ms q.request_id h
        s

  daily_quota-Tells : (h : Headers R) (s : R.State) → Tells R (daily_quota F R identity clock q h s)
  unfolding daily_quota
  daily_quota-Tells h s =
      limit_quota-Tells R ("gateway:quota:key:" <> identity.key_id <> ":daily:" <> clock.today)
        (set_limit identity.metadata.daily_token_quota) q.tokens 86400 "3600" q.cache_hit h s

  monthly_quota-Tells :
      (h : Headers R) (s : R.State) → Tells R (monthly_quota F R identity clock q h s)
  unfolding monthly_quota
  monthly_quota-Tells h s =
      limit_quota-Tells R ("gateway:quota:key:" <> identity.key_id <> ":monthly:" <> clock.month)
        (set_limit identity.metadata.monthly_token_quota) q.tokens 2592000 "86400" q.cache_hit h s

  model_limits-Tells :
      (h : Headers R) (s : R.State) → Tells R (model_limits F R identity clock q h s)
  unfolding model_limits
  model_limits-Tells h s =
      limits_of_model-Tells (lookup q.model identity.metadata.per_model_limits) h s

  chain-Tells :
      (bucket : Bool) (s : R.State)
      → Tells R (check_and_increment_rate_limit F R identity clock q bucket s)
  unfolding check_and_increment_rate_limit
  chain-Tells bucket s = and_then-Tells R _ _ (own_requests-Tells bucket [] s) (λ h s.
      and_then-Tells R _ _ (own_tokens-Tells h s) (λ h s.
        and_then-Tells R _ _ (model_limits-Tells h s) (λ h s.
          and_then-Tells R _ _ (user_limit-Tells h s) (λ h s.
            and_then-Tells R _ _ (team_limits-Tells h s) (λ h s.
              and_then-Tells R _ _ (org_limit-Tells h s) (λ h s.
                and_then-Tells R _ _ (global_limit-Tells h s)
                  (λ h s. and_then-Tells R _ _ (daily_quota-Tells h s) monthly_quota-Tells)))))))

  -- Whatever limit refuses a request, the headers of the refusal name a time after which to retry.
  pub check_and_increment_rate_limit-retry :
      (bucket : Bool) (s s' : R.State) (h : Headers R)
      → check_and_increment_rate_limit F R identity clock q bucket s ≡ ok (false, h, s')
      → (t : String) × (lookup "retry-after" h ≡ some t)
  check_and_increment_rate_limit-retry bucket s s' h e =
      (subst (Tells R) e (chain-Tells bucket s)).named

  own_requests-room :
      (L : IsLawful R) (limit : ℕ) (s s' : R.State) (h : Headers R)
      → identity.rpm_limit ≡ some limit
      → limit ≢ 0
      → own_requests F R identity clock q false [] s ≡ ok (true, h, s')
      → length (young R L ("gateway:rl:key:" <> identity.key_id <> ":rpm") 60000 clock.now_ms s)
        < limit
  unfolding own_requests key_rpm
  own_requests-room L limit s s' h set nonzero own =
      let is_set : nat_eq limit 0 ≡ false = ground arith in
      let allowed = rw (set, is_set) at own in
      (check_sliding_window_lem R L ("gateway:rl:key:" <> identity.key_id <> ":rpm") limit 60000
          clock.now_ms q.request_id s (omega arith)).0.0
        (refuse-eq-true R "60" _ _ h _ s' allowed)

  -- A request that all limits allow, of a key with a limit of requests per minute, found fewer
  -- requests than that in the last minute of its sliding window.
  pub check_and_increment_rate_limit-room :
      (L : IsLawful R) (limit : ℕ) (s s' : R.State) (h : Headers R)
      → identity.rpm_limit ≡ some limit
      → limit ≢ 0
      → check_and_increment_rate_limit F R identity clock q false s ≡ ok (true, h, s')
      → length (young R L ("gateway:rl:key:" <> identity.key_id <> ":rpm") 60000 clock.now_ms s)
        < limit
  unfolding check_and_increment_rate_limit
  check_and_increment_rate_limit-room L limit s s' h set nonzero e =
      let (h1, s1, own) =
        and_then-eq-true R (own_requests F R identity clock q false [] s) _ h s' e in
      own_requests-room L limit s s1 h1 set nonzero own
