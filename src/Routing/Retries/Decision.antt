-- ===== src/Routing/Retries/Decision.antt =====
-- routing/retries.py: when a failed call is repeated, and how long the wait is.
use commandclaw_gateway.Prelude.{
  ℕ, ◌<◌, ◌≡◌, ◌↔◌, ◌⊎◌, inl, inr, true, false, Option, none, some, arith, Bool-cases,
}
use commandclaw_gateway.Floats.{Floats, IsOrdered}
use commandclaw_gateway.Routing.Retries.{Policy, max_retries_for, should_retry, compute_backoff}

-- What it takes for a failed call to be repeated.
abbrev pub IsRetried : ℕ → ℕ → ℕ → Option Policy → Type 0
IsRetried status attempt max_retries (some p) = attempt < max_retries_for p status
IsRetried status attempt max_retries none =
    (attempt < max_retries)
    × ((status ≡ 429) ⊎ (status ≡ 500) ⊎ (status ≡ 502) ⊎ (status ≡ 503) ⊎ (status ≡ 504))

-- A call is repeated under a policy exactly while the policy's count for the status is not used up,
-- and without one exactly while the attempts last and the status is 429, 500, 502, 503 or 504.
pub should_retry_iff :
    (status attempt max_retries : ℕ) (p : Option Policy)
    → (should_retry status attempt max_retries p ≡ true) ↔ IsRetried status attempt max_retries p
unfolding should_retry
should_retry_iff status attempt max_retries none = ground arith
should_retry_iff status attempt max_retries (some p) = ground arith

-- The wait before a repeated call is never above `max_wait`, whatever the jitter.
pub compute_backoff-le :
    (F : Floats)
    → IsOrdered F
    → (jitter : F.Float) (attempt : ℕ) (base max_wait : F.Float)
    → F.lt max_wait (compute_backoff F jitter attempt base max_wait) ≡ false
unfolding compute_backoff
compute_backoff-le F O jitter attempt base max_wait =
    elim (Bool-cases (F.lt max_wait (F.add (F.scale base attempt) jitter))) [
      | inl above ↦ rw above (O.lt_irrefl max_wait)
      | inr below ↦ rw below below
    ]
