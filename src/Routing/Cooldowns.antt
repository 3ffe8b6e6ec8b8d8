-- ===== src/Routing/Cooldowns.antt =====
-- routing/cooldowns.py: failing deployments are paused.
pub mod Pause
use commandclaw_gateway.Prelude.{ℕ, String, Bool, true, false, if◌then◌else◌, leb, ◌<>◌}
use commandclaw_gateway.Redis.{Redis}

unfoldable pub failure_key : String → String
failure_key deployment_id = "gateway:cooldown:failures:" <> deployment_id

unfoldable pub active_key : String → String
active_key deployment_id = "gateway:cooldown:active:" <> deployment_id

module _ (R : Redis) where
  unfoldable pub increment_failure : String → R.State → ℕ × R.State
  increment_failure deployment_id s =
      let key = failure_key deployment_id in
      let (count, s') = R.incr key s in (count, R.expire key 300 s')

  unfoldable pub maybe_cooldown : String → ℕ → ℕ → ℕ → R.State → Bool × R.State
  maybe_cooldown deployment_id failure_count allowed_fails cooldown_time s =
      if leb allowed_fails failure_count
      then (
        true,
        R.delete (failure_key deployment_id)
            (R.setex (active_key deployment_id) cooldown_time "1" s),
      )
      else (false, s)

  unfoldable pub is_cooled_down : String → R.State → Bool
  is_cooled_down deployment_id s = R.exists (active_key deployment_id) s

  unfoldable pub reset_cooldown : String → R.State → R.State
  reset_cooldown deployment_id s = R.delete (failure_key deployment_id) s

  -- The two calls that follow a failed attempt in the routes.
  unfoldable pub record_failure : String → ℕ → ℕ → R.State → R.State
  unfolding increment_failure maybe_cooldown
  record_failure deployment_id allowed_fails cooldown_time s =
      let (count, s') = increment_failure deployment_id s in
      (maybe_cooldown deployment_id count allowed_fails cooldown_time s').1
