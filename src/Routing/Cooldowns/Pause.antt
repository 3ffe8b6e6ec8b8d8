-- ===== src/Routing/Cooldowns/Pause.antt =====
-- routing/cooldowns.py: the failures of a deployment in a row lead to a pause.
use commandclaw_gateway.Prelude.{
  ℕ, zero, suc, ◌+◌, ◌<◌, ◌≤◌, String, ◌≡◌, refl, ◌∙◌, true, false, some, arith, leb, ◌==◌, nat-str,
  ==-clash, clash,
}
use commandclaw_gateway.Redis.{Redis, IsLawful, counter}
use commandclaw_gateway.Routing.Cooldowns.{
  failure_key, active_key, increment_failure, is_cooled_down, record_failure,
}

failure-ne-active : (a b : String) → (failure_key a == active_key b) ≡ false
unfolding failure_key active_key clash
failure-ne-active a b = ==-clash "gateway:cooldown:failures:" "gateway:cooldown:active:" a b refl

module _ (R : Redis) (L : IsLawful R) (id : String) where
  -- The failures counted for the deployment.
  abbrev pub Failures : ℕ → R.State → Type 0
  Failures n s = counter (R.get (failure_key id) s) ≡ some n

  Failures-increment :
      (n : ℕ) (s : R.State)
      → Failures n s
      → ((increment_failure R id s).0 ≡ n + 1) × Failures (n + 1) (increment_failure R id s).1
  unfolding increment_failure
  Failures-increment n s h = (
    L.incr-value _ n s h,
    rw
        (
          L.get-expire (failure_key id) 300 (R.incr (failure_key id) s).1 (omega arith),
          L.get-incr (failure_key id) n s h,
        )
        (nat-str (n + 1)),
  )

  abbrev counted : R.State → R.State
  counted s = R.expire (failure_key id) 300 (R.incr (failure_key id) s).1

  -- Below the threshold the failure is counted, and nothing else changes for the deployment.
  record_failure_below :
      (n allowed time : ℕ) (s : R.State)
      → Failures n s
      → n + 1 < allowed
      → Failures (n + 1) (record_failure R id allowed time s)
        × (is_cooled_down R id (record_failure R id allowed time s) ≡ is_cooled_down R id s)
  unfolding record_failure is_cooled_down increment_failure
  record_failure_below n allowed time s h below =
      let (value, after) = Failures-increment n s h in
      let stop : leb allowed (R.incr (failure_key id) s).0 ≡ false = ground arith in
      rw (stop, record_failure)
        (
          after,
          (L.expire_frame (failure_key id) 300 _ (active_key id) (failure-ne-active id id)).exists
              ∙ (L.incr_frame (failure_key id) s (active_key id) (failure-ne-active id id)).exists,
        )

  -- At the threshold the deployment is cooled down, and the count restarts.
  record_failure_at :
      (n allowed time : ℕ) (s : R.State)
      → Failures n s
      → allowed ≤ n + 1
      → 0 < time
      → Failures 0 (record_failure R id allowed time s)
        × (is_cooled_down R id (record_failure R id allowed time s) ≡ true)
  unfolding record_failure is_cooled_down increment_failure
  record_failure_at n allowed time s h at pos =
      let (value, after) = Failures-increment n s h in
      let go : leb allowed (R.incr (failure_key id) s).0 ≡ true = ground arith in
      rw (go, record_failure)
        (
          rw (L.get-delete (failure_key id) (R.setex (active_key id) time "1" (counted s))),
          (L.delete_frame (failure_key id) _ (active_key id) (failure-ne-active id id)).exists
              ∙ L.exists-get (active_key id) "1" _
                  (L.get-setex (active_key id) "1" time (counted s) pos),
        )

  -- `k` failures in a row.
  pub failures : ℕ → ℕ → ℕ → R.State → R.State
  failures zero allowed time s = s
  failures (suc k) allowed time s = record_failure R id allowed time (failures k allowed time s)

  failures-below :
      (k allowed time : ℕ) (s : R.State)
      → Failures 0 s
      → k < allowed
      → Failures k (failures k allowed time s)
        × (is_cooled_down R id (failures k allowed time s) ≡ is_cooled_down R id s)
  unfolding failures
  failures-below zero allowed time s h below = (h, refl)
  failures-below (suc k) allowed time s h below =
      let (count, same) = failures-below k allowed time s h (omega arith) in
      let (count', same') =
        record_failure_below k allowed time (failures k allowed time s) count (omega arith) in
      (rw (let e : suc k ≡ k + 1 = omega arith in e) count', same' ∙ same)

  -- From a deployment with no counted failure that is not cooled down, fewer than `allowed` failures
  -- in a row leave it in use; the failure with that number cools it down and restarts the count.
  pub failures_threshold :
      (k allowed time : ℕ) (s : R.State)
      → Failures 0 s
      → is_cooled_down R id s ≡ false
      → 0 < time
      → 0 < allowed
      → (k < allowed → is_cooled_down R id (failures k allowed time s) ≡ false)
        × (k ≡ allowed
            → Failures 0 (failures k allowed time s)
              × (is_cooled_down R id (failures k allowed time s) ≡ true))
  failures_threshold k allowed time s h up pos some_allowed =
      (λ below. (failures-below k allowed time s h below).1 ∙ up, last k)
    where
      last :
          (j : ℕ)
          → j ≡ allowed
          → Failures 0 (failures j allowed time s)
            × (is_cooled_down R id (failures j allowed time s) ≡ true)
      last zero e = absurd (omega arith)
      last (suc j) e =
          unfold failures in
          record_failure_at j allowed time _ (failures-below j allowed time s h (omega arith)).0
            (omega arith) pos
