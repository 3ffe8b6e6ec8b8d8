-- ===== src/Middleware/MemoryCache/Bounded.antt =====
-- middleware/memory_cache.py: how many entries the cache holds.
use commandclaw_gateway.Prelude.{
  ℕ, ◌+◌, ◌<◌, ◌≤◌, String, ◌≡◌, refl, Option, none, some, List, [], ◌∷◌, ◌++◌, ◌==◌, leb, arith,
  length, lookup, insert, Bool-cases, inl, inr, Try, ok, ◌>>=◌,
}
use commandclaw_gateway.Floats.{Floats}
use commandclaw_gateway.Middleware.MemoryCache.{
  MemoryCache, Entry, remove, new, found, get, set, pop_oldest, make_room, deleted, delete, flush,
  size,
}

module _ {V : Type 0} where
  pub length-insert :
      (k : String) (v : V) (d : List (String × V)) → length (insert k v d) ≤ length d + 1
  unfolding insert
  length-insert k v [] = omega arith
  length-insert k v ((j, w) ∷ d) = ground (arith, length-insert k v d)

  pub length-remove_le : (k : String) (d : List (String × V)) → length (remove k d) ≤ length d
  unfolding remove
  length-remove_le k [] = omega arith
  length-remove_le k ((j, w) ∷ d) = ground (arith, length-remove_le k d)

  pub length-remove :
      (k : String) (v : V) (d : List (String × V))
      → lookup k d ≡ some v
      → length (remove k d) + 1 ≡ length d
  unfolding remove lookup
  length-remove k v [] e = cc
  length-remove k v ((j, w) ∷ d) e = elim (Bool-cases (j == k)) [
    | inl same ↦ rw same (omega arith)
    | inr other ↦ rw other (let h = length-remove k v d (rw other at e) in omega arith)
  ]

  pub length-snoc : (d : List V) (e : V) → length (d ++ e ∷ []) ≡ length d + 1
  length-snoc [] e = omega arith
  length-snoc (x ∷ d) e = omega (arith, length-snoc d e)

module _ (F : Floats) (V : Type 0) where
  -- The operations that change the cache.
  pub data Operation : Type 0 where
    getting : String → F.Float → Operation
    setting : String → V → ℕ → F.Float → Operation
    deleting : String → Operation
    flushing : Operation

  unfoldable pub perform : Operation → MemoryCache F V → Try (MemoryCache F V)
  perform (getting key now) c = ok (get F V key now c).1
  perform (setting key value ttl now) c = set F V key value ttl now c
  perform (deleting key) c = ok (delete F V key c).1
  perform flushing c = ok (flush F V c).1

  unfoldable pub perform_all : List Operation → MemoryCache F V → Try (MemoryCache F V)
  unfolding perform
  perform_all [] c = ok c
  perform_all (o ∷ os) c = perform o c >>= perform_all os

  -- At most `n` entries, and `n` is the maximum.
  abbrev IsWithin : ℕ → MemoryCache F V → Type 0
  IsWithin n c = (c.max_size ≡ n) × (length c.store ≤ n)

  -- A step that succeeds, with a cache within the bound.
  abbrev Succeeds : ℕ → Try (MemoryCache F V) → Type 0
  Succeeds n out = (c : MemoryCache F V) × (out ≡ ok c) × IsWithin n c

  found-IsWithin :
      (n : ℕ) (key : String) (now : F.Float) (c : MemoryCache F V) (o : Option (Entry F V))
      → lookup key c.store ≡ o
      → IsWithin n c
      → IsWithin n (found F V key now c o).1
  unfolding found
  found-IsWithin n key now c none e w = w
  found-IsWithin n key now c (some (value, expires_at)) e (m, w) =
      elim (Bool-cases (F.lt expires_at now)) [
        | inl over ↦ rw over (m, omega (arith, length-remove_le key c.store))
        | inr fresh ↦ rw fresh (
          m,
          omega (
            arith,
            length-snoc (remove key c.store) (key, (value, expires_at)),
            length-remove key (value, expires_at) c.store e,
          ),
        )
      ]

  make_room-lt :
      (n : ℕ) (es : List (String × Entry F V))
      → 0 < n
      → length es ≤ n
      → (kept : List (String × Entry F V)) × (make_room F V n es ≡ ok kept) × (length kept < n)
  unfolding make_room pop_oldest
  make_room-lt n [] pos w = ([], ground arith, pos)
  make_room-lt n (x ∷ xs) pos w = elim (Bool-cases (leb n (length (x ∷ xs)))) [
    | inl full ↦ rw full (xs, refl, omega arith)
    | inr room ↦ rw room (x ∷ xs, refl, ground arith)
  ]

  set-Succeeds :
      (n : ℕ) (key : String) (value : V) (ttl : ℕ) (now : F.Float) (c : MemoryCache F V)
      → 0 < n
      → IsWithin n c
      → Succeeds n (set F V key value ttl now c)
  unfolding set
  set-Succeeds n key value ttl now c pos (m, w) =
      let (kept, e, few) = make_room-lt n c.store pos w in
      rw (m, e)
        (_, refl, (refl, omega (arith, length-insert key (value, F.add now (F.of_nat ttl)) kept)))

  deleted-IsWithin :
      (n : ℕ) (key : String) (c : MemoryCache F V) (o : Option (Entry F V))
      → IsWithin n c
      → IsWithin n (deleted F V key c o).1
  unfolding deleted
  deleted-IsWithin n key c none w = w
  deleted-IsWithin n key c (some e) (m, w) = (m, omega (arith, length-remove_le key c.store))

  perform-Succeeds :
      (n : ℕ) (o : Operation) (c : MemoryCache F V)
      → 0 < n
      → IsWithin n c
      → Succeeds n (perform o c)
  unfolding perform get flush delete
  perform-Succeeds n (getting key now) c pos w =
      (_, refl, found-IsWithin n key now c (lookup key c.store) refl w)
  perform-Succeeds n (setting key value ttl now) c pos w = set-Succeeds n key value ttl now c pos w
  perform-Succeeds n (deleting key) c pos w =
      (_, refl, deleted-IsWithin n key c (lookup key c.store) w)
  perform-Succeeds n flushing c pos (m, w) = (_, refl, (m, omega arith))

  perform_all-Succeeds :
      (n : ℕ) (os : List Operation) (c : MemoryCache F V)
      → 0 < n
      → IsWithin n c
      → Succeeds n (perform_all os c)
  unfolding perform_all
  perform_all-Succeeds n [] c pos w = (c, refl, w)
  perform_all-Succeeds n (o ∷ os) c pos w =
      let (c', e, w') = perform-Succeeds n o c pos w in rw e (perform_all-Succeeds n os c' pos w')

  -- From an empty cache with a maximum above 0, no sequence of operations fails, and the cache never
  -- holds more entries than its maximum.
  pub perform_all-bounded :
      (n : ℕ) (os : List Operation)
      → 0 < n
      → (c : MemoryCache F V) × (perform_all os (new F V n) ≡ ok c) × (size F V c ≤ n)
  unfolding size new
  perform_all-bounded n os pos =
      let (c, e, (m, w)) = perform_all-Succeeds n os (new F V n) pos (refl, omega arith) in
      (c, e, w)
