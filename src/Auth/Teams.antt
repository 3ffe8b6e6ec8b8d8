-- ===== src/Auth/Teams.antt =====
-- auth/teams.py: the records of teams and organizations. `json` and `time.time` are outside of the
-- program: the texts of lists and metadata are read and written by a codec. Listing scans the server
-- and is left out.
pub mod Limits
use commandclaw_gateway.Prelude.{
  ℕ, String, Bool, true, false, not, Option, none, some, List, [], ◌∷◌, ◌++◌, ◌==◌, if◌then◌else◌,
  lookup, keep, is_empty, ◌<>◌, str, Try, ok, raise, ◌>>=◌, or_raise, json_error,
}
use commandclaw_gateway.Floats.{Floats}
use commandclaw_gateway.Redis.{Redis}
use commandclaw_gateway.Auth.VirtualKeys.{text_or, shown}

pub record Member (F : Type 0) : Type 0 where
  pub user_id : String
  pub role : String
  -- not set again when the role changes
  pub added_at : Option F

pub record TeamCodec (F : Floats) : Type 1 where
  pub Metadata : Type 0
  pub dumps : List String → String
  pub dump_metadata : Metadata → String
  pub dump_members : List (Member F.Float) → String
  pub load_members : String → Option (List (Member F.Float))

abbrev pub team_key : String → String
team_key team_id = "gateway:team:" <> team_id

abbrev pub org_key : String → String
org_key org_id = "gateway:org:" <> org_id

module _ (F : Floats) (C : TeamCodec F) (R : Redis) where
  -- `json.dumps(xs) if xs else ""`
  list_text : Option (List String) → String
  unfolding is_empty
  list_text none = ""
  list_text (some xs) = if is_empty xs then "" else C.dumps xs

  pub record TeamRequest : Type 0 where
    pub name : String
    pub org_id : Option String
    pub max_budget : Option F.Float
    pub budget_duration : Option String
    pub rpm_limit : Option ℕ
    pub tpm_limit : Option ℕ
    pub model_allowlist : Option (List String)
    pub guardrail_policy : Option String
    pub allowed_regions : Option (List String)
    pub metadata : C.Metadata

  unfoldable pub team_data : String → TeamRequest → F.Float → List (String × String)
  unfolding list_text
  team_data team_id q now =
      ("team_id", team_id)
      ∷ ("name", q.name)
      ∷ ("org_id", text_or "" q.org_id)
      ∷ ("max_budget", shown F.print q.max_budget)
      ∷ ("budget_duration", text_or "" q.budget_duration)
      ∷ ("rpm_limit", shown str q.rpm_limit)
      ∷ ("tpm_limit", shown str q.tpm_limit)
      ∷ ("model_allowlist", list_text q.model_allowlist)
      ∷ ("guardrail_policy", text_or "" q.guardrail_policy)
      ∷ ("allowed_regions", list_text q.allowed_regions)
      ∷ ("members", C.dump_members [])
      ∷ ("metadata", C.dump_metadata q.metadata)
      ∷ ("created_at", F.print now)
      ∷ []

  unfoldable pub create_team :
      String → TeamRequest → F.Float → R.State → List (String × String) × R.State
  unfolding team_data
  create_team team_id q now s =
      (team_data team_id q now, (R.hset (team_key team_id) (team_data team_id q now) s).1)

  -- The updates of a team: a field that is not named is `none`, and `some none` is None. Texts and
  -- numbers are already printed.
  pub record TeamUpdates : Type 0 where
    pub plain : List (String × Option String)
    pub model_allowlist : Option (Option (List String))
    pub allowed_regions : Option (Option (List String))
    pub metadata : Option C.Metadata

  abbrev team_fields : List String
  team_fields =
      "name" ∷ "max_budget" ∷ "budget_duration" ∷ "rpm_limit" ∷ "tpm_limit" ∷ "guardrail_policy"
      ∷ []

  abbrev org_fields : List String
  org_fields = "name" ∷ "max_budget" ∷ "budget_duration" ∷ "rpm_limit" ∷ "tpm_limit" ∷ []

  -- `for field in fields: if field in updates: mapping[field] = ...`
  plain_mapping : List String → List (String × Option String) → List (String × String)
  unfolding lookup
  plain_mapping [] updates = []
  plain_mapping (field ∷ fields) updates = elim (lookup field updates) [
    | none ↦ plain_mapping fields updates
    | some value ↦ (field, text_or "" value) ∷ plain_mapping fields updates
  ]

  abbrev entry {ℓ} : {A : Type ℓ} → String → (A → String) → Option A → List (String × String)
  entry field print none = []
  entry field print (some a) = (field, print a) ∷ []

  hset_if : String → List (String × String) → R.State → R.State
  hset_if key [] s = s
  hset_if key (f ∷ fs) s = (R.hset key (f ∷ fs) s).1

  unfoldable pub update_team : String → TeamUpdates → R.State → Bool × R.State
  unfolding plain_mapping list_text hset_if
  update_team team_id u s =
      if R.exists (team_key team_id) s
      then (
        true,
        hset_if (team_key team_id)
            (plain_mapping team_fields u.plain
              ++ entry "model_allowlist" list_text u.model_allowlist
              ++ entry "allowed_regions" list_text u.allowed_regions
              ++ entry "metadata" C.dump_metadata u.metadata)
            s,
      )
      else (false, s)

  unfoldable pub delete_team : String → R.State → Bool × R.State
  delete_team team_id s = (R.exists (team_key team_id) s, R.delete (team_key team_id) s)

  -- The loop over the members: whether the user is one, and the list with the new role.
  with_role : String → String → List (Member F.Float) → Bool × List (Member F.Float)
  with_role user_id role [] = (false, [])
  with_role user_id role (m ∷ ms) =
      let (is_there, rest) = with_role user_id role ms in
      if m.user_id == user_id then (true, record m { role = role } ∷ ms) else (is_there, m ∷ rest)

  unfoldable pub members_with :
      String → String → F.Float → List (Member F.Float) → List (Member F.Float)
  unfolding with_role
  members_with user_id role now ms =
      let (is_there, changed) = with_role user_id role ms in
      if is_there
      then changed
      else ms ++ record { user_id = user_id; role = role; added_at = some now } ∷ []

  members_of : List (String × String) → Try (List (Member F.Float))
  unfolding lookup
  members_of stored = or_raise json_error (C.load_members (text_or "[]" (lookup "members" stored)))

  change_members :
      String
      → (List (Member F.Float) → List (Member F.Float))
      → List (String × String)
      → R.State
      → Try (Bool × R.State)
  unfolding members_of
  change_members team_id change [] s = ok (false, s)
  change_members team_id change (f ∷ fs) s = do
    ms ← members_of (f ∷ fs)
    ok (true, (R.hset (team_key team_id) (("members", C.dump_members (change ms)) ∷ []) s).1)

  unfoldable pub add_team_member :
      String → String → String → F.Float → R.State → Try (Bool × R.State)
  unfolding change_members members_with
  add_team_member team_id user_id role now s =
      change_members team_id (members_with user_id role now) (R.hgetall (team_key team_id) s) s

  unfoldable pub remove_team_member : String → String → R.State → Try (Bool × R.State)
  unfolding change_members keep
  remove_team_member team_id user_id s =
      change_members team_id (keep (λ m. not (m.user_id == user_id)))
        (R.hgetall (team_key team_id) s) s

  pub record OrgRequest : Type 0 where
    pub name : String
    pub max_budget : Option F.Float
    pub budget_duration : Option String
    pub rpm_limit : Option ℕ
    pub tpm_limit : Option ℕ
    pub metadata : C.Metadata

  unfoldable pub org_data : String → OrgRequest → F.Float → List (String × String)
  org_data org_id q now =
      ("org_id", org_id)
      ∷ ("name", q.name)
      ∷ ("max_budget", shown F.print q.max_budget)
      ∷ ("budget_duration", text_or "" q.budget_duration)
      ∷ ("rpm_limit", shown str q.rpm_limit)
      ∷ ("tpm_limit", shown str q.tpm_limit)
      ∷ ("metadata", C.dump_metadata q.metadata)
      ∷ ("created_at", F.print now)
      ∷ []

  unfoldable pub create_org :
      String → OrgRequest → F.Float → R.State → List (String × String) × R.State
  unfolding org_data
  create_org org_id q now s =
      (org_data org_id q now, (R.hset (org_key org_id) (org_data org_id q now) s).1)

  unfoldable pub update_org :
      String → List (String × Option String) → Option C.Metadata → R.State → Bool × R.State
  unfolding plain_mapping hset_if
  update_org org_id updates metadata s =
      if R.exists (org_key org_id) s
      then (
        true,
        hset_if (org_key org_id)
            (plain_mapping org_fields updates ++ entry "metadata" C.dump_metadata metadata) s,
      )
      else (false, s)

  unfoldable pub delete_org : String → R.State → Bool × R.State
  delete_org org_id s = (R.exists (org_key org_id) s, R.delete (org_key org_id) s)
