-- ===== src/Auth/Rbac/Bounds.antt =====
-- auth/rbac.py `check_key_generation_bounds`: what limits a user may give to a new key.
use commandclaw_gateway.Prelude.{
  ℕ, ◌≤◌, ◌≡◌, refl, ◌↔◌, ◌⊎◌, inl, inr, String, Bool, false, Option, none, some, arith, ltb, leb,
  if◌then◌else◌, str, ◌<>◌, Bool-cases,
}
use commandclaw_gateway.Floats.{Floats}
use commandclaw_gateway.Schemas.{IdentityContext}
use commandclaw_gateway.Auth.Rbac.{level, Verdict}

-- `requested is not None and own is not None and requested > own`
pub exceeds {ℓ} : {A : Type ℓ} → (A → A → Bool) → Option A → Option A → Bool
exceeds lt (some requested) (some own) = lt own requested
exceeds lt none own = false
exceeds lt (some requested) none = false

-- What the limits are printed as in a reason.
shown {ℓ} : {A : Type ℓ} → (A → String) → Option A → String
shown print none = "None"
shown print (some a) = print a

-- `P` holds of the two values, where both are set.
abbrev pub AtMost {ℓ} : {A : Type ℓ} → (A → A → Type 0) → Option A → Option A → Type 0
AtMost P (some requested) (some own) = P requested own
AtMost P none own = Unit
AtMost P (some requested) none = Unit

exceeds-iff_nat : (a b : Option ℕ) → (exceeds ltb a b ≡ false) ↔ AtMost ◌≤◌ a b
unfolding exceeds
exceeds-iff_nat none b = (λ _. tt, λ _. refl)
exceeds-iff_nat (some r) none = (λ _. tt, λ _. refl)
exceeds-iff_nat (some r) (some own) = ground arith

module _ (F : Floats) where
  exceeds-iff_float :
      (a b : Option F.Float) → (exceeds F.lt a b ≡ false) ↔ AtMost (λ r own. F.lt own r ≡ false) a b
  unfolding exceeds
  exceeds-iff_float none b = (λ _. tt, λ _. refl)
  exceeds-iff_float (some r) none = (λ _. tt, λ _. refl)
  exceeds-iff_float (some r) (some own) = (λ h. h, λ h. h)

  unfoldable pub check_key_generation_bounds :
      IdentityContext F.Float → Option F.Float → Option ℕ → Option ℕ → Verdict
  unfolding shown
  check_key_generation_bounds identity budget rpm tpm =
      if leb 3 (level identity.user_role)
      then none
      else if exceeds F.lt budget identity.max_budget
      then some (
          "Cannot create key with budget $"
          <> shown F.print budget
          <> " (your limit: $"
          <> shown F.print identity.max_budget
          <> ")")
      else if exceeds ltb rpm identity.rpm_limit
      then some (
          "Cannot create key with "
          <> shown str rpm
          <> " RPM (your limit: "
          <> shown str identity.rpm_limit
          <> ")")
      else if exceeds ltb tpm identity.tpm_limit
      then some (
          "Cannot create key with "
          <> shown str tpm
          <> " TPM (your limit: "
          <> shown str identity.tpm_limit
          <> ")")
      else none

  -- A request within the user's own limits, so far as both sides are set.
  abbrev pub IsWithin : IdentityContext F.Float → Option F.Float → Option ℕ → Option ℕ → Type 0
  IsWithin identity budget rpm tpm =
      AtMost (λ b own. F.lt own b ≡ false) budget identity.max_budget
      × AtMost ◌≤◌ rpm identity.rpm_limit
      × AtMost ◌≤◌ tpm identity.tpm_limit

  -- A key request passes exactly if the user is an admin or each limit that it names stays within the
  -- user's own, where that is set.
  pub check_key_generation_bounds_iff :
      (identity : IdentityContext F.Float) (budget : Option F.Float) (rpm tpm : Option ℕ)
      → (check_key_generation_bounds identity budget rpm tpm ≡ none)
        ↔ ((3 ≤ level identity.user_role) ⊎ IsWithin identity budget rpm tpm)
  unfolding check_key_generation_bounds
  check_key_generation_bounds_iff identity budget rpm tpm =
      let b = exceeds-iff_float budget identity.max_budget in
      let r = exceeds-iff_nat rpm identity.rpm_limit in
      let t = exceeds-iff_nat tpm identity.tpm_limit in
      (
        λ h. elim (Bool-cases (leb 3 (level identity.user_role))) [
          | inl admin ↦ inl (ground arith)
          | inr other ↦ inr (b.0 (ground arith), r.0 (ground arith), t.0 (ground arith))
        ],
        elim [
          | inl admin ↦ ground arith
          | inr (hb, hr, ht) ↦
              let hb' = b.1 hb in
              let hr' = r.1 hr in
              let ht' = t.1 ht in
              elim (Bool-cases (leb 3 (level identity.user_role))) [
                | inl admin ↦ rw admin
                | inr other ↦ rw (other, hb', hr', ht')
              ]
        ],
      )
