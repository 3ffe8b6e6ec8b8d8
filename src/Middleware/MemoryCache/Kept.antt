-- ===== src/Middleware/MemoryCache/Kept.antt =====
-- middleware/memory_cache.py: how long the cache holds a value that was set.
use commandclaw_gateway.Prelude.{
  ℕ, ◌+◌, ◌-◌, ◌≤◌, String, ◌≡◌, refl, subst, ◌∙◌, false, Option, none, some, List, [], ◌∷◌, ◌++◌,
  ◌==◌, eq_iff, leb, arith, length, lookup, insert, lookup-insert, eq_self, Bool-cases, inl, inr,
  ok, >>=-eq-ok, ok-injective, All,
}
use commandclaw_gateway.Floats.{Floats}
use commandclaw_gateway.Middleware.MemoryCache.{
  MemoryCache, Entry, remove, found, get, set, make_room, deleted, delete, size,
}
use commandclaw_gateway.Middleware.MemoryCache.Bounded.{
  length-insert, length-remove_le, length-remove, length-snoc, Operation, getting, setting,
  deleting, flushing, perform, perform_all,
}

module _ {V : Type 0} where
  lookup-remove :
      (k j : String) (d : List (String × V)) → (j == k) ≡ false → lookup k (remove j d) ≡ lookup k d
  unfolding lookup remove
  lookup-remove k j [] other = refl
  lookup-remove k j ((i, v) ∷ d) other =
      ground (arith, eq_iff i j, eq_iff i k, eq_iff j k, lookup-remove k j d other)

  lookup-snoc :
      (k j : String) (v : V) (d : List (String × V))
      → (j == k) ≡ false
      → lookup k (d ++ (j, v) ∷ []) ≡ lookup k d
  unfolding lookup
  lookup-snoc k j v [] other = rw other refl
  lookup-snoc k j v ((i, w) ∷ d) other = rw (lookup-snoc k j v d other) refl

module _ (F : Floats) (V : Type 0) where
  -- The number of entries that operations may add.
  abbrev pub settings : List (Operation F V) → ℕ
  settings [] = 0
  settings (getting key now ∷ os) = settings os
  settings (setting key value ttl now ∷ os) = 1 + settings os
  settings (deleting key ∷ os) = settings os
  settings (flushing ∷ os) = settings os

  -- An operation on another key.
  abbrev pub Elsewhere : String → Operation F V → Type 0
  Elsewhere key (getting j now) = (j == key) ≡ false
  Elsewhere key (setting j value ttl now) = (j == key) ≡ false
  Elsewhere key (deleting j) = (j == key) ≡ false
  Elsewhere key flushing = ⊥

  -- The entry `e` is there, in a cache for `n` entries that has room for `left` more.
  abbrev Holds : String → Entry F V → ℕ → ℕ → MemoryCache F V → Type 0
  Holds key e n left c =
      (lookup key c.store ≡ some e) × (c.max_size ≡ n) × (left ≤ n - length c.store)

  found-Holds :
      (key j : String) (e : Entry F V) (n left : ℕ) (now : F.Float) (c : MemoryCache F V)
      (o : Option (Entry F V))
      → (j == key) ≡ false
      → lookup j c.store ≡ o
      → Holds key e n left c
      → Holds key e n left (found F V j now c o).1
  unfolding found
  found-Holds key j e n left now c none other there h = h
  found-Holds key j e n left now c (some (value, until)) other there (held, max, room) =
      elim (Bool-cases (F.lt until now)) [
        | inl over ↦ rw over (
          lookup-remove key j c.store other ∙ held,
          max,
          omega (arith, length-remove_le j c.store),
        )
        | inr fresh ↦ rw fresh (
          lookup-snoc key j (value, until) (remove j c.store) other
              ∙ lookup-remove key j c.store other
              ∙ held,
          max,
          omega (
            arith,
            length-snoc (remove j c.store) (j, (value, until)),
            length-remove j (value, until) c.store there,
          ),
        )
      ]

  set-Holds :
      (key j : String) (e : Entry F V) (n left : ℕ) (value : V) (ttl : ℕ) (now : F.Float)
      (c : MemoryCache F V)
      → (j == key) ≡ false
      → Holds key e n (1 + left) c
      → (c' : MemoryCache F V) × (set F V j value ttl now c ≡ ok c') × Holds key e n left c'
  unfolding set make_room
  set-Holds key j e n left value ttl now c other (held, max, room) =
      let until : Entry F V = (value, F.add now (F.of_nat ttl)) in
      let spare : leb c.max_size (length c.store) ≡ false = ground arith in
      rw spare (
        record c { store = insert j until c.store },
        refl,
        (
          lookup-insert j key until c.store ∙ rw other held,
          max,
          omega (arith, length-insert j until c.store),
        ),
      )

  deleted-Holds :
      (key j : String) (e : Entry F V) (n left : ℕ) (c : MemoryCache F V) (o : Option (Entry F V))
      → (j == key) ≡ false
      → Holds key e n left c
      → Holds key e n left (deleted F V j c o).1
  unfolding deleted
  deleted-Holds key j e n left c none other h = h
  deleted-Holds key j e n left c (some x) other (held, max, room) =
      (lookup-remove key j c.store other ∙ held, max, omega (arith, length-remove_le j c.store))

  perform_all-Holds :
      (key : String) (e : Entry F V) (n : ℕ) (os : List (Operation F V)) (c : MemoryCache F V)
      → All (Elsewhere key) os
      → Holds key e n (settings os) c
      → (c' : MemoryCache F V) × (perform_all F V os c ≡ ok c') × (lookup key c'.store ≡ some e)
  unfolding perform_all perform get delete
  perform_all-Holds key e n [] c all (held, max, room) = (c, refl, held)
  perform_all-Holds key e n (getting j now ∷ os) c (other, all) h =
      perform_all-Holds key e n os _ all
        (found-Holds key j e n (settings os) now c (lookup j c.store) other refl h)
  perform_all-Holds key e n (setting j value ttl now ∷ os) c (other, all) h =
      let (c', done, h') = set-Holds key j e n (settings os) value ttl now c other h in
      rw done (perform_all-Holds key e n os c' all h')
  perform_all-Holds key e n (deleting j ∷ os) c (other, all) h =
      perform_all-Holds key e n os _ all
        (deleted-Holds key j e n (settings os) c (lookup j c.store) other h)
  perform_all-Holds key e n (flushing ∷ os) c (other, all) h = absurd other

  found-eq :
      (key : String) (value : V) (until later : F.Float) (c : MemoryCache F V)
      (o : Option (Entry F V))
      → o ≡ some (value, until)
      → F.lt until later ≡ false
      → (found F V key later c o).0 ≡ some value
  unfolding found
  found-eq key value until later c none e fresh = cc
  found-eq key value until later c (some (v, t)) e fresh =
      let stays : F.lt t later ≡ false = cc in rw stays (cc)

  -- A value that has been set is found under its key after any operations on other keys that set no
  -- more values than the cache then has room for, if it has not expired when it is asked for.
  pub get-set :
      (key : String) (value : V) (ttl : ℕ) (now later : F.Float) (c c' : MemoryCache F V)
      (os : List (Operation F V))
      → set F V key value ttl now c ≡ ok c'
      → All (Elsewhere key) os
      → settings os ≤ c'.max_size - size F V c'
      → F.lt (F.add now (F.of_nat ttl)) later ≡ false
      → (c'' : MemoryCache F V) × (perform_all F V os c' ≡ ok c'')
        × ((get F V key later c'').0 ≡ some value)
  unfolding get set size
  get-set key value ttl now later c c' os e others room fresh =
      let until = F.add now (F.of_nat ttl) in
      let (kept, _, e') = >>=-eq-ok (make_room F V c.max_size c.store) _ e in
      let held : lookup key c'.store ≡ some (value, until) =
        subst (λ d. lookup key d.store ≡ some (value, until)) (ok-injective _ c' e')
          (lookup-insert key key (value, until) kept ∙ rw (eq_self key) refl) in
      let (c'', done, there) =
        perform_all-Holds key (value, until) c'.max_size os c' others (held, refl, room) in
      (c'', done, found-eq key value until later c'' (lookup key c''.store) there fresh)
