-- ===== src/Auth/VirtualKeys.antt =====
-- auth/virtual_keys.py: making and validating a virtual key. Outside of the program are `secrets` and `ulid`,
-- whose new texts are arguments, `time.time`, SHA-256 and `json`.
use commandclaw_gateway.Prelude.{
  ◌&&◌, ℕ, String, Bool, true, false, not, Option, none, some, List, [], ◌∷◌, ◌==◌, nat_eq,
  if◌then◌else◌, lookup, is_empty, truthy, or_none, ◌<>◌, nat, str, Try, ok, ◌>>=◌, or_raise,
  value_error, json_error,
}
use commandclaw_gateway.Floats.{Floats}
use commandclaw_gateway.Redis.{Redis}
use commandclaw_gateway.Schemas.{IdentityContext, Metadata}

-- `hashlib` and `json`
pub record Codec (F : Floats) : Type 0 where
  pub hash_key : String → String
  pub dumps : List String → String
  pub loads : String → Option (List String)
  pub dump_metadata : Metadata F.Float → String
  pub load_metadata : String → Option (Metadata F.Float)

abbrev pub hash_entry : String → String
hash_entry key_hash = "gateway:vk:hash:" <> key_hash

abbrev pub key_entry : String → String
key_entry key_id = "gateway:vk:" <> key_id

abbrev pub spend_entry : String → String
spend_entry key_id = "gateway:spend:key:" <> key_id

-- `data.get(field, d)`
abbrev pub text_or {ℓ} : {A : Type ℓ} → A → Option A → A
text_or d none = d
text_or d (some s) = s

-- `read(data[field]) if data.get(field) else None`
abbrev pub optional : {A : Type 0} → (String → Try A) → Option String → Try (Option A)
optional read none = ok none
optional read (some text) = if text == "" then ok none else (do a ← read text; ok (some a))

-- `data.get(field) or None`
abbrev pub some_text : Option String → Option String
some_text none = none
some_text (some text) = or_none text

-- `str(x) if x is not None else ""`
abbrev pub shown {ℓ} : {A : Type ℓ} → (A → String) → Option A → String
shown print none = ""
shown print (some a) = print a

module _ (F : Floats) (C : Codec F) (R : Redis) where
  abbrev pub read_float : String → Try F.Float
  read_float text = or_raise value_error (F.parse text)

  abbrev pub read_nat : String → Try ℕ
  read_nat text = or_raise value_error (nat text)

  abbrev pub read_list : String → Try (List String)
  read_list text = or_raise json_error (C.loads text)

  -- `float(text or "0")`
  unfoldable pub float_or_zero : Option String → Try F.Float
  float_or_zero none = read_float "0"
  float_or_zero (some text) = read_float (if text == "" then "0" else text)

  -- What a new key is asked for.
  pub record KeyRequest : Type 0 where
    pub user_id : String
    pub models : Option (List String)
    pub max_budget : Option F.Float
    pub budget_duration : Option String
    pub rpm_limit : Option ℕ
    pub tpm_limit : Option ℕ
    pub max_parallel_requests : Option ℕ
    pub team_id : Option String
    pub org_id : Option String
    pub key_alias : Option String
    pub guardrail_policy : Option String
    pub metadata : Metadata F.Float
    pub expires_in : Option ℕ

  -- `if budget_duration and max_budget:` the end of the period
  unfoldable pub budget_reset_at : KeyRequest → F.Float → String
  budget_reset_at q now =
      if truthy q.budget_duration && not (is_zero q.max_budget)
      then if text_or "" q.budget_duration == "daily"
        then F.print (F.add now (F.of_nat 86400))
        else if text_or "" q.budget_duration == "monthly"
        then F.print (F.add now (F.of_nat 2592000))
        else ""
      else ""
    where
      is_zero : Option F.Float → Bool
      is_zero none = true
      is_zero (some x) = not (F.lt x F.zero) && not (F.lt F.zero x)

  -- `expires_in` where it is set and not 0
  unfoldable pub lifetime : KeyRequest → Option ℕ
  lifetime q = elim q.expires_in [ none ↦ none | some n ↦ if nat_eq n 0 then none else some n ]

  unfoldable pub key_data : KeyRequest → String → String → F.Float → List (String × String)
  unfolding budget_reset_at lifetime
  key_data q key_id key_hash now =
      ("key_id", key_id)
      ∷ ("key_hash", key_hash)
      ∷ ("user_id", q.user_id)
      ∷ ("team_id", text_or "" q.team_id)
      ∷ ("org_id", text_or "" q.org_id)
      ∷ ("user_role", "internal_user")
      ∷ ("key_alias", text_or "" q.key_alias)
      ∷ (
        "model_allowlist",
        (elim q.models [ none ↦ "" | some ms ↦ if is_empty ms then "" else C.dumps ms ]),
      )
      ∷ ("max_budget", shown F.print q.max_budget)
      ∷ ("budget_duration", text_or "" q.budget_duration)
      ∷ ("budget_reset_at", budget_reset_at q now)
      ∷ ("rpm_limit", shown str q.rpm_limit)
      ∷ ("tpm_limit", shown str q.tpm_limit)
      ∷ ("max_parallel_requests", shown str q.max_parallel_requests)
      ∷ ("guardrail_policy", text_or "" q.guardrail_policy)
      ∷ ("is_blocked", "0")
      ∷ ("created_at", F.print now)
      ∷ ("expires_at", shown (λ n. F.print (F.add now (F.of_nat n))) (lifetime q))
      ∷ ("metadata", C.dump_metadata q.metadata)
      ∷ []

  -- `raw_key` and `key_id` are new. The remaining life is `int(float(expires_at) - now)`, which is
  -- taken to be `expires_in`.
  unfoldable pub generate_key :
      KeyRequest → String → String → F.Float → R.State → (String × List (String × String)) × R.State
  unfolding key_data lifetime
  generate_key q raw_key key_id now s =
      let key_hash = C.hash_key raw_key in
      let fields = key_data q key_id key_hash now in
      let s' = R.set (hash_entry key_hash) key_id (R.hset (key_entry key_id) fields s).1 in
      (
        (raw_key, fields),
        elim (lifetime q) [
          | none ↦ s'
          | some ttl ↦ R.expire (hash_entry key_hash) ttl (R.expire (key_entry key_id) ttl s')
        ],
      )

  abbrev Fields : Type 0
  Fields = List (String × String)

  -- `expires_at and float(expires_at) < time.time()`
  unfoldable pub has_expired : Fields → F.Float → Try Bool
  unfolding lookup
  has_expired fields now = do
    expires_at ← optional read_float (lookup "expires_at" fields)
    ok (elim expires_at [ none ↦ false | some t ↦ F.lt t now ])

  -- The identity of a key that is valid.
  unfoldable pub identity_of : String → Fields → R.State → Try (IdentityContext F.Float)
  unfolding lookup float_or_zero
  identity_of key_id fields s = do
    spend ← float_or_zero (R.get (spend_entry key_id) s)
    max_budget ← optional read_float (lookup "max_budget" fields)
    model_allowlist ← optional read_list (lookup "model_allowlist" fields)
    rpm_limit ← optional read_nat (lookup "rpm_limit" fields)
    tpm_limit ← optional read_nat (lookup "tpm_limit" fields)
    max_parallel_requests ← optional read_nat (lookup "max_parallel_requests" fields)
    metadata ← or_raise json_error (C.load_metadata (text_or "{}" (lookup "metadata" fields)))
    ok (record {
      key_id = key_id;
      user_id = text_or "" (lookup "user_id" fields);
      team_id = some_text (lookup "team_id" fields);
      org_id = some_text (lookup "org_id" fields);
      key_alias = some_text (lookup "key_alias" fields);
      user_role = text_or "internal_user" (lookup "user_role" fields);
      model_allowlist = model_allowlist;
      max_budget = max_budget;
      budget_duration = some_text (lookup "budget_duration" fields);
      budget_remaining = (elim max_budget [ none ↦ F.inf | some m ↦ F.sub m spend ]);
      rpm_limit = rpm_limit;
      tpm_limit = tpm_limit;
      max_parallel_requests = max_parallel_requests;
      guardrail_policy = some_text (lookup "guardrail_policy" fields);
      region_constraint = none;
      metadata = metadata;
    })

  -- `data.get("is_blocked") == "1"`
  abbrev pub is_blocked : Fields → Bool
  is_blocked fields = text_or "" (lookup "is_blocked" fields) == "1"

  unfoldable pub validate_fields :
      String → Fields → F.Float → R.State → Try (Option (IdentityContext F.Float))
  unfolding has_expired identity_of
  validate_fields key_id [] now s = ok none
  validate_fields key_id (f ∷ fs) now s =
      if is_blocked (f ∷ fs)
      then ok none
      else has_expired (f ∷ fs) now >>= λ expired.
          if expired
          then ok none
          else identity_of key_id (f ∷ fs) s >>= λ identity. ok (some identity)

  unfoldable pub validate_id :
      Option String → F.Float → R.State → Try (Option (IdentityContext F.Float))
  unfolding validate_fields
  validate_id none now s = ok none
  validate_id (some key_id) now s =
      if key_id == ""
      then ok none
      else validate_fields key_id (R.hgetall (key_entry key_id) s) now s

  unfoldable pub validate_key : String → F.Float → R.State → Try (Option (IdentityContext F.Float))
  unfolding validate_id
  validate_key raw_key now s = validate_id (R.get (hash_entry (C.hash_key raw_key)) s) now s
