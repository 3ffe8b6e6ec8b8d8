-- ===== src/Auth/KeyChanges.antt =====
-- auth/virtual_keys.py: blocking, deleting, rotating and updating a virtual key.
pub mod Revoked
use commandclaw_gateway.Prelude.{
  ◌&&◌, ℕ, String, Bool, true, false, not, Option, none, some, List, [], ◌∷◌, ◌++◌, ◌==◌, nat_eq,
  if◌then◌else◌, lookup, is_empty, truthy, or_none, ◌<>◌, nat, str, Try, ok, raise, ◌>>=◌, or_raise,
  value_error, json_error,
}
use commandclaw_gateway.Floats.{Floats}
use commandclaw_gateway.Redis.{Redis}
use commandclaw_gateway.Schemas.{IdentityContext, Metadata}
use commandclaw_gateway.Auth.VirtualKeys.{Codec, hash_entry, key_entry, text_or, shown}

-- `bool(hset(...))`: whether the field is new
abbrev pub is_new : ℕ → Bool
is_new n = not (nat_eq n 0)

module _ (R : Redis) where
  unfoldable pub block_key : String → R.State → Bool × R.State
  block_key key_id s =
      let (count, s') = R.hset (key_entry key_id) (("is_blocked", "1") ∷ []) s in (is_new count, s')

  unfoldable pub unblock_key : String → R.State → Bool × R.State
  unblock_key key_id s =
      let (count, s') = R.hset (key_entry key_id) (("is_blocked", "0") ∷ []) s in (is_new count, s')

  delete_fields : String → List (String × String) → R.State → Bool × R.State
  unfolding lookup
  delete_fields key_id [] s = (false, s)
  delete_fields key_id (f ∷ fs) s =
      let key_hash = text_or "" (lookup "key_hash" (f ∷ fs)) in
      let s' = R.delete (key_entry key_id) s in
      (true, if key_hash == "" then s' else R.delete (hash_entry key_hash) s')

  unfoldable pub delete_key : String → R.State → Bool × R.State
  unfolding delete_fields
  delete_key key_id s = delete_fields key_id (R.hgetall (key_entry key_id) s) s

  -- `new_raw_key` is new, and `new_hash` is its hash.
  unfoldable pub rotate_fields :
      String
      → String
      → String
      → ℕ
      → List (String × String)
      → R.State
      → Option (String × String) × R.State
  unfolding lookup
  rotate_fields key_id new_raw_key new_hash grace [] s = (none, s)
  rotate_fields key_id new_raw_key new_hash grace (f ∷ fs) s =
      let old_hash = text_or "" (lookup "key_hash" (f ∷ fs)) in
      let s' =
        R.set (hash_entry new_hash) key_id
          (R.hset (key_entry key_id) (("key_hash", new_hash) ∷ []) s).1 in
      (
        some (new_raw_key, key_id),
        if old_hash == "" then s' else R.expire (hash_entry old_hash) grace s',
      )

  unfoldable pub rotate_key :
      String → String → String → ℕ → R.State → Option (String × String) × R.State
  unfolding rotate_fields
  rotate_key key_id new_raw_key new_hash grace s =
      rotate_fields key_id new_raw_key new_hash grace (R.hgetall (key_entry key_id) s) s

module _ (F : Floats) (C : Codec F) (R : Redis) where
  -- `updates`: a field that is not in it is `none`, and `some none` is a field set to None.
  pub record Updates : Type 0 where
    pub max_budget : Option (Option F.Float)
    pub budget_duration : Option (Option String)
    pub rpm_limit : Option (Option ℕ)
    pub tpm_limit : Option (Option ℕ)
    pub max_parallel_requests : Option (Option ℕ)
    pub model_allowlist : Option (Option (List String))
    pub metadata : Option (Metadata F.Float)

  -- The list that `none` leaves out.
  abbrev entry {ℓ} : {A : Type ℓ} → String → (A → String) → Option A → List (String × String)
  entry field print none = []
  entry field print (some a) = (field, print a) ∷ []

  allowlist_text : Option (List String) → String
  unfolding is_empty
  allowlist_text none = ""
  allowlist_text (some ms) = if is_empty ms then "" else C.dumps ms

  unfoldable pub mapping : Updates → List (String × String)
  unfolding allowlist_text
  mapping u =
      entry "max_budget" (shown F.print) u.max_budget
      ++ entry "budget_duration" (text_or "") u.budget_duration
      ++ entry "rpm_limit" (shown str) u.rpm_limit
      ++ entry "tpm_limit" (shown str) u.tpm_limit
      ++ entry "max_parallel_requests" (shown str) u.max_parallel_requests
      ++ entry "model_allowlist" allowlist_text u.model_allowlist
      ++ entry "metadata" C.dump_metadata u.metadata

  written_to : String → List (String × String) → R.State → R.State
  written_to key_id [] s = s
  written_to key_id (f ∷ fs) s = (R.hset (key_entry key_id) (f ∷ fs) s).1

  unfoldable pub update_key : String → Updates → R.State → Bool × R.State
  unfolding mapping written_to
  update_key key_id u s =
      if R.exists (key_entry key_id) s then (true, written_to key_id (mapping u) s) else (false, s)
