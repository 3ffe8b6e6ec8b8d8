-- ===== src/Auth/Budgets.antt =====
-- auth/budgets.py: spend counters and budgets of keys, users, teams and organizations. A refusal is
-- the level that is exhausted; the wording of its message is left out.
pub mod Covered
use commandclaw_gateway.Prelude.{
  ℕ, suc, String, Bool, true, false, not, ◌&&◌, Option, none, some, List, [], ◌∷◌, ◌++◌, ◌==◌, leb,
  nat_eq, if◌then◌else◌, lookup, truthy, ◌<>◌, ltb_ℤ, ℤ, pos, Try, ok, raise, ◌>>=◌, or_raise,
  value_error,
}
use commandclaw_gateway.Floats.{Floats}
use commandclaw_gateway.Redis.{Redis}
use commandclaw_gateway.Schemas.{IdentityContext}
use commandclaw_gateway.Auth.VirtualKeys.{text_or}
use commandclaw_gateway.Routing.Router.{int_or_zero}

pub data Level : Type 0 where
  key_level user_level team_level org_level : Level

abbrev pub level_name : Level → String
level_name key_level = "key"
level_name user_level = "user"
level_name team_level = "team"
level_name org_level = "org"

abbrev pub spend_key : Level → String → String
spend_key l id = "gateway:spend:" <> level_name l <> ":" <> id

-- The record of a user, team or organization.
abbrev pub record_key : Level → String → String
record_key l id = "gateway:" <> level_name l <> ":" <> id

module _ (F : Floats) (R : Redis) where
  abbrev pub read_float : String → Try F.Float
  read_float text = or_raise value_error (F.parse text)

  -- `get_spend`, `get_user_spend`, `get_team_spend`, `get_org_spend`
  unfoldable pub get_spend : Level → String → R.State → Try F.Float
  get_spend l id s = elim (R.get (spend_key l id) s) [
    | none ↦ ok F.zero
    | some text ↦ if text == "" then ok F.zero else read_float text
  ]

  -- The result of `_INCREMENT_SPEND_LUA`: the new values, and the server.
  unfoldable pub increment_all : List String → String → R.State → List String × R.State
  increment_all [] cost s = ([], s)
  increment_all (k ∷ ks) cost s =
      let (value, s') = R.incrbyfloat k cost s in
      let (values, s'') = increment_all ks cost s' in (value ∷ values, s'')

  abbrev pub id_list : Level → Option String → List String
  id_list l id = if truthy id then spend_key l (text_or "" id) ∷ [] else []

  unfoldable pub spend_keys : String → String → Option String → Option String → List String
  spend_keys key_id user_id team_id org_id =
      spend_key key_level key_id ∷ spend_key user_level user_id ∷ id_list team_level team_id
      ++ id_list org_level org_id

  -- `increment_spend`, for its effect
  unfoldable pub increment_spend :
      String → String → F.Float → Option String → Option String → R.State → R.State
  unfolding increment_all spend_keys
  increment_spend key_id user_id cost team_id org_id s =
      (increment_all (spend_keys key_id user_id team_id org_id) (F.print cost) s).1

  -- `if (spend + estimated_cost) > limit: return False`
  unfoldable pub refuse_above : Level → F.Float → F.Float → F.Float → Option Level
  refuse_above l limit estimate spend = if F.lt limit (F.add spend estimate) then some l else none

  -- The next level, unless this one refuses.
  abbrev pub or_refuse : Try (Option Level) → Try (Option Level) → Try (Option Level)
  or_refuse (raise e) next = raise e
  or_refuse (ok (some l)) next = ok (some l)
  or_refuse (ok none) next = next

  unfoldable pub check_key :
      IdentityContext F.Float → F.Float → R.State → Option F.Float → Try (Option Level)
  unfolding get_spend refuse_above
  check_key identity estimate s none = ok none
  check_key identity estimate s (some limit) = do
    spend ← get_spend key_level identity.key_id s
    ok (refuse_above key_level limit estimate spend)

  unfoldable pub check_limit : Level → String → F.Float → R.State → String → Try (Option Level)
  unfolding get_spend refuse_above
  check_limit l id estimate s text =
      if text == ""
      then ok none
      else get_spend l id s >>= λ spend.
          read_float text >>= λ limit. ok (refuse_above l limit estimate spend)

  -- The budget in the record of a user, team or organization; an empty id has none.
  unfoldable pub check_stored : Level → String → F.Float → R.State → Try (Option Level)
  unfolding check_limit
  check_stored l id estimate s =
      if id == ""
      then ok none
      else check_limit l id estimate s
          (text_or "" (lookup "max_budget" (R.hgetall (record_key l id) s)))

  unfoldable pub check_budget : IdentityContext F.Float → F.Float → R.State → Try (Option Level)
  unfolding check_key check_stored
  check_budget identity estimate s = or_refuse (check_key identity estimate s identity.max_budget) (
      or_refuse (check_stored user_level identity.user_id estimate s) (
        or_refuse (check_stored team_level (text_or "" identity.team_id) estimate s)
          (check_stored org_level (text_or "" identity.org_id) estimate s)))

  -- `float(text or "0")`
  unfoldable pub float_or_zero : Option String → Try F.Float
  float_or_zero none = read_float "0"
  float_or_zero (some text) = read_float (if text == "" then "0" else text)

  -- Whether the model's budget covers the cost.
  unfoldable pub check_model_budget :
      IdentityContext F.Float → String → F.Float → R.State → Try Bool
  unfolding float_or_zero lookup
  check_model_budget identity model estimate s =
      elim (lookup model identity.metadata.model_budgets) [
        | none ↦ ok true
        | some limit ↦ do
          current ←
              float_or_zero
                (R.get ("gateway:spend:key:" <> identity.key_id <> ":model:" <> model) s)
          ok (not (F.lt limit (F.add current estimate)))
      ]

  abbrev iterations_key : String → String
  iterations_key session = "gateway:session:" <> session <> ":iterations"

  abbrev cost_key : String → String
  cost_key session = "gateway:session:" <> session <> ":cost"

  -- `if x` of a float
  abbrev nonzero : F.Float → Bool
  nonzero x = not (not (F.lt x F.zero) && not (F.lt F.zero x))

  unfoldable pub check_session_budget : String → ℕ → F.Float → R.State → Try Bool
  unfolding float_or_zero
  check_session_budget session max_iterations max_cost s = do
    iters ← int_or_zero (R.get (iterations_key session) s)
    cost ← float_or_zero (R.get (cost_key session) s)
    let too_many = not (nat_eq max_iterations 0) && not (ltb_ℤ iters (pos max_iterations))
    let too_dear = nonzero max_cost && not (F.lt cost max_cost)
    ok (not too_many && not too_dear)

  unfoldable pub increment_session : String → F.Float → R.State → R.State
  increment_session session cost s =
      let s1 = (R.incr (iterations_key session) s).1 in
      let s2 = (R.incrbyfloat (cost_key session) (F.print cost) s1).1 in
      R.expire (cost_key session) 86400 (R.expire (iterations_key session) 86400 s2)

  unfoldable pub reset_budget : String → R.State → R.State
  reset_budget key_id s = R.set (spend_key key_level key_id) "0" s
