-- ===== src/Auth/Budgets/Covered.antt =====
-- auth/budgets.py `check_budget`: what a budget check that passes has found.
use commandclaw_gateway.Prelude.{
  String, ◌≡◌, ◌≢◌, refl, subst, false, Option, none, some, lookup, Bool-cases, inl, inr, Try, ok,
  raise, >>=-eq-ok, eq-false_of_ne,
}
use commandclaw_gateway.Floats.{Floats}
use commandclaw_gateway.Redis.{Redis}
use commandclaw_gateway.Schemas.{IdentityContext}
use commandclaw_gateway.Auth.VirtualKeys.{text_or}
use commandclaw_gateway.Auth.Budgets.{
  Level, key_level, user_level, team_level, org_level, record_key, read_float, get_spend,
  refuse_above, or_refuse, check_key, check_limit, check_stored, check_budget,
}

module _ (F : Floats) (R : Redis) where
  -- The spend at the level together with the estimate is not above the limit.
  abbrev pub IsBelow : Level → String → F.Float → R.State → F.Float → Type 0
  IsBelow l id estimate s limit =
      (spend : F.Float) × (get_spend F R l id s ≡ ok spend)
      × (F.lt limit (F.add spend estimate) ≡ false)

  -- Where the record of the id names a budget, the spend keeps to it.
  abbrev pub IsCovered : Level → String → F.Float → R.State → Type 0
  IsCovered l id estimate s =
      (text : String)
      → id ≢ ""
      → text ≢ ""
      → lookup "max_budget" (R.hgetall (record_key l id) s) ≡ some text
      → (limit : F.Float) × (read_float F R text ≡ ok limit) × IsBelow l id estimate s limit

  or_refuse-eq-none :
      (m n : Try (Option Level)) → or_refuse F R m n ≡ ok none → (m ≡ ok none) × (n ≡ ok none)
  or_refuse-eq-none (raise e) n h = cc
  or_refuse-eq-none (ok (some l)) n h = cc
  or_refuse-eq-none (ok none) n h = (refl, h)

  refuse_above-eq-none :
      (l : Level) (limit estimate spend : F.Float)
      → ok (refuse_above F R l limit estimate spend) ≡ ok none
      → F.lt limit (F.add spend estimate) ≡ false
  unfolding refuse_above
  refuse_above-eq-none l limit estimate spend h =
      elim (Bool-cases (F.lt limit (F.add spend estimate))) [
        | inl above ↦ cc (rw above at h)
        | inr below ↦ below
      ]

  check_key-IsBelow :
      (identity : IdentityContext F.Float) (estimate limit : F.Float) (s : R.State)
      (o : Option F.Float)
      → o ≡ some limit
      → check_key F R identity estimate s o ≡ ok none
      → IsBelow key_level identity.key_id estimate s limit
  unfolding check_key
  check_key-IsBelow identity estimate limit s none e h = cc
  check_key-IsBelow identity estimate limit s (some m) e h =
      let (spend, read, h') = >>=-eq-ok (get_spend F R key_level identity.key_id s) _ h in
      let same : m ≡ limit = cc in
      (
        spend,
        read,
        subst (λ x. F.lt x (F.add spend estimate) ≡ false) same
            (refuse_above-eq-none key_level m estimate spend h'),
      )

  check_limit-IsBelow :
      (l : Level) (id text : String) (estimate : F.Float) (s : R.State)
      → text ≢ ""
      → check_limit F R l id estimate s text ≡ ok none
      → (limit : F.Float) × (read_float F R text ≡ ok limit) × IsBelow l id estimate s limit
  unfolding check_limit
  check_limit-IsBelow l id text estimate s named h =
      let h1 = rw (eq-false_of_ne text "" named) at h in
      let (spend, read, h2) = >>=-eq-ok (get_spend F R l id s) _ h1 in
      let (limit, parsed, h3) = >>=-eq-ok (read_float F R text) _ h2 in
      (limit, parsed, (spend, read, refuse_above-eq-none l limit estimate spend h3))

  check_stored-IsCovered :
      (l : Level) (id : String) (estimate : F.Float) (s : R.State)
      → check_stored F R l id estimate s ≡ ok none
      → IsCovered l id estimate s
  unfolding check_stored
  check_stored-IsCovered l id estimate s h text given named e =
      check_limit-IsBelow l id text estimate s named (
        subst (λ o. check_limit F R l id estimate s (text_or "" o) ≡ ok none) e
          (rw (eq-false_of_ne id "" given) at h))

  -- A budget check that passes has found each budget respected, with the estimated cost included: the
  -- key's, and those in the records of the user, the team and the organization of the identity.
  pub check_budget-IsCovered :
      (identity : IdentityContext F.Float) (estimate : F.Float) (s : R.State)
      → check_budget F R identity estimate s ≡ ok none
      → ((limit : F.Float)
          → identity.max_budget ≡ some limit
          → IsBelow key_level identity.key_id estimate s limit)
        × IsCovered user_level identity.user_id estimate s
        × IsCovered team_level (text_or "" identity.team_id) estimate s
        × IsCovered org_level (text_or "" identity.org_id) estimate s
  unfolding check_budget
  check_budget-IsCovered identity estimate s h =
      let (key, h1) = or_refuse-eq-none _ _ h in
      let (user, h2) = or_refuse-eq-none _ _ h1 in
      let (team, org) = or_refuse-eq-none _ _ h2 in
      (
        λ limit e. check_key-IsBelow identity estimate limit s identity.max_budget e key,
        check_stored-IsCovered user_level identity.user_id estimate s user,
        check_stored-IsCovered team_level (text_or "" identity.team_id) estimate s team,
        check_stored-IsCovered org_level (text_or "" identity.org_id) estimate s org,
      )
