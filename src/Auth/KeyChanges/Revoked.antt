-- ===== src/Auth/KeyChanges/Revoked.antt =====
-- auth/virtual_keys.py: keys that are blocked or deleted are not valid.
use commandclaw_gateway.Prelude.{
  ◌⊎◌, String, ◌≡◌, refl, ◌∙◌, subst, true, false, Option, none, some, List, [], ◌∷◌, ◌==◌, arith,
  lookup, Bool-cases, inl, inr, ok, eq_iff,
}
use commandclaw_gateway.Floats.{Floats}
use commandclaw_gateway.Redis.{Redis, IsLawful}
use commandclaw_gateway.Auth.VirtualKeys.{
  Codec, hash_entry, key_entry, text_or, validate_fields, validate_id, validate_key,
}
use commandclaw_gateway.Auth.KeyChanges.{block_key, unblock_key, delete_fields, delete_key, is_new}

-- The record of the key is no entry of a hash: its id does not begin with "hash:".
abbrev pub IsProper : String → Type 0
IsProper key_id = (h : String) → (hash_entry h == key_entry key_id) ≡ false

==-sym_false : (s t : String) → (s == t) ≡ false → (t == s) ≡ false
==-sym_false s t e = ground (arith, eq_iff s t, eq_iff t s)

module _ (F : Floats) (C : Codec F) (R : Redis) (L : IsLawful R) where
  validate_fields-blocked :
      (key_id : String) (fields : List (String × String)) (now : F.Float) (s : R.State)
      → lookup "is_blocked" fields ≡ some "1"
      → validate_fields F C R key_id fields now s ≡ ok none
  unfolding validate_fields
  validate_fields-blocked key_id [] now s e = refl
  validate_fields-blocked key_id (f ∷ fs) now s e = rw e refl

  validate_id-blocked :
      (key_id : String) (now : F.Float) (s : R.State)
      → lookup "is_blocked" (R.hgetall (key_entry key_id) s) ≡ some "1"
      → validate_id F C R (some key_id) now s ≡ ok none
  unfolding validate_id
  validate_id-blocked key_id now s e = elim (Bool-cases (key_id == "")) [
    | inl none_given ↦ rw none_given refl
    | inr given ↦ rw given (validate_fields-blocked key_id (R.hgetall (key_entry key_id) s) now s e)
  ]

  -- A key that has just been blocked is not valid, whoever it belongs to and whatever its limits.
  pub block_key-invalid :
      (raw_key key_id : String) (now : F.Float) (s : R.State)
      → IsProper key_id
      → R.get (hash_entry (C.hash_key raw_key)) s ≡ some key_id
      → validate_key F C R raw_key now (block_key R key_id s).1 ≡ ok none
  unfolding validate_key block_key
  block_key-invalid raw_key key_id now s proper points =
      let fs = ("is_blocked", "1") ∷ [] in
      let still =
        (L.hset_frame (key_entry key_id) fs s (hash_entry (C.hash_key raw_key))
          (==-sym_false _ (key_entry key_id) (proper (C.hash_key raw_key)))).get
        ∙ points in
      rw still (
        validate_id-blocked key_id now (R.hset (key_entry key_id) fs s).1
          (L.hgetall-hset (key_entry key_id) "is_blocked" fs s ∙ unfold lookup in refl))

  validate_id-missing :
      (o : Option String) (key_id : String) (now : F.Float) (s : R.State)
      → (o ≡ none) ⊎ (o ≡ some key_id)
      → R.hgetall (key_entry key_id) s ≡ []
      → validate_id F C R o now s ≡ ok none
  unfolding validate_id validate_fields
  validate_id-missing none key_id now s h gone = refl
  validate_id-missing (some id) key_id now s (inl e) gone = cc
  validate_id-missing (some id) key_id now s (inr e) gone =
      let same : id ≡ key_id = cc in
      elim (Bool-cases (id == "")) [
        | inl none_given ↦ rw none_given refl
        | inr given ↦ rw given (rw same (rw gone refl))
      ]

  -- Where the hash of a key points once it may have been deleted.
  get-delete_cases :
      (j k v : String) (s : R.State)
      → R.get j s ≡ some v
      → (R.get j (R.delete k s) ≡ none) ⊎ (R.get j (R.delete k s) ≡ some v)
  get-delete_cases j k v s e = elim (Bool-cases (k == j)) [
    | inl same ↦
        let e' : k ≡ j = (eq_iff k j).0 same in
        inl (subst (λ i. R.get i (R.delete k s) ≡ none) e' (L.get-delete k s))
    | inr other ↦ inr ((L.delete_frame k s j other).get ∙ e)
  ]

  after_delete :
      (raw_key key_id : String) (now : F.Float) (s : R.State) (fields : List (String × String))
      → IsProper key_id
      → R.get (hash_entry (C.hash_key raw_key)) s ≡ some key_id
      → R.hgetall (key_entry key_id) s ≡ fields
      → validate_key F C R raw_key now (delete_fields R key_id fields s).1 ≡ ok none
  unfolding validate_key delete_fields
  after_delete raw_key key_id now s [] proper points e =
      validate_id-missing _ key_id now s (inr points) e
  after_delete raw_key key_id now s (f ∷ fs) proper points e =
      let h = hash_entry (C.hash_key raw_key) in
      let key_hash = text_or "" (lookup "key_hash" (f ∷ fs)) in
      let s1 = R.delete (key_entry key_id) s in
      let still : R.get h s1 ≡ some key_id =
        (L.delete_frame (key_entry key_id) s h
          (==-sym_false h (key_entry key_id) (proper (C.hash_key raw_key)))).get
        ∙ points in
      let gone : R.hgetall (key_entry key_id) s1 ≡ [] = L.hgetall-delete (key_entry key_id) s in
      elim (Bool-cases (key_hash == "")) [
        | inl no_hash ↦ rw no_hash (validate_id-missing _ key_id now s1 (inr still) gone)
        | inr hash ↦ rw hash (
            validate_id-missing _ key_id now (R.delete (hash_entry key_hash) s1)
              (get-delete_cases h (hash_entry key_hash) key_id s1 still)
              ((L.delete_frame (hash_entry key_hash) s1 (key_entry key_id)
                  (proper key_hash)).hgetall
                ∙ gone))
      ]

  -- A key that has just been deleted is not valid.
  pub delete_key-invalid :
      (raw_key key_id : String) (now : F.Float) (s : R.State)
      → IsProper key_id
      → R.get (hash_entry (C.hash_key raw_key)) s ≡ some key_id
      → validate_key F C R raw_key now (delete_key R key_id s).1 ≡ ok none
  unfolding delete_key
  delete_key-invalid raw_key key_id now s proper points =
      after_delete raw_key key_id now s (R.hgetall (key_entry key_id) s) proper points refl

module _ (R : Redis) (L : IsLawful R) where
  -- Blocking and unblocking a key report failure for a key whose record holds its state, and success
  -- for one without.
  pub block_key-reports :
      (key_id : String) (s : R.State)
      → ((v : String)
          → lookup "is_blocked" (R.hgetall (key_entry key_id) s) ≡ some v
          → ((block_key R key_id s).0 ≡ false) × ((unblock_key R key_id s).0 ≡ false))
        × (lookup "is_blocked" (R.hgetall (key_entry key_id) s) ≡ none
            → ((block_key R key_id s).0 ≡ true) × ((unblock_key R key_id s).0 ≡ true))
  unfolding block_key unblock_key
  block_key-reports key_id s = (
    λ v e. (
      rw (L.hset-count (key_entry key_id) (("is_blocked", "1") ∷ []) s, e, is_new) refl,
      rw (L.hset-count (key_entry key_id) (("is_blocked", "0") ∷ []) s, e, is_new) refl,
    ),
    λ e. (
      rw (L.hset-count (key_entry key_id) (("is_blocked", "1") ∷ []) s, e, is_new) refl,
      rw (L.hset-count (key_entry key_id) (("is_blocked", "0") ∷ []) s, e, is_new) refl,
    ),
  )
