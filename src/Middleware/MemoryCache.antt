-- ===== src/Middleware/MemoryCache.antt =====
-- middleware/memory_cache.py: a cache in memory with a time to live, which drops the oldest entry
-- when it is full. `_store` is a list of its entries, the oldest first; the clock's reading is an
-- argument.
pub mod Bounded
pub mod Kept
use commandclaw_gateway.Prelude.{
  ℕ, suc, String, Bool, true, false, Option, none, some, List, [], ◌∷◌, ◌++◌, ◌==◌, leb,
  if◌then◌else◌, length, lookup, insert, Try, ok, raise, ◌>>=◌, key_error,
}
use commandclaw_gateway.Floats.{Floats}

-- `del d[k]`
unfoldable pub remove {ℓ} : {V : Type ℓ} → String → List (String × V) → List (String × V)
remove k [] = []
remove k ((j, v) ∷ d) = let rest = remove k d in if j == k then d else (j, v) ∷ rest

module _ (F : Floats) (V : Type 0) where
  -- The value and the time at which it expires.
  abbrev pub Entry : Type 0
  Entry = V × F.Float

  pub record MemoryCache : Type 0 where
    pub store : List (String × Entry)
    pub max_size : ℕ

  unfoldable pub new : ℕ → MemoryCache
  new max_size = record { store = []; max_size = max_size }

  found : String → F.Float → MemoryCache → Option Entry → Option V × MemoryCache
  unfolding remove
  found key now c none = (none, c)
  found key now c (some (value, expires_at)) =
      if F.lt expires_at now
      then (none, record c { store = remove key c.store })
      else (some value, record c { store = remove key c.store ++ (key, (value, expires_at)) ∷ [] })

  unfoldable pub get : String → F.Float → MemoryCache → Option V × MemoryCache
  unfolding found lookup
  get key now c = found key now c (lookup key c.store)

  -- `popitem(last=False)`
  unfoldable pub pop_oldest : List (String × Entry) → Try (List (String × Entry))
  pop_oldest [] = raise key_error
  pop_oldest (e ∷ es) = ok es

  unfoldable pub make_room : ℕ → List (String × Entry) → Try (List (String × Entry))
  unfolding pop_oldest
  make_room max_size es = if leb max_size (length es) then pop_oldest es else ok es

  unfoldable pub set : String → V → ℕ → F.Float → MemoryCache → Try MemoryCache
  unfolding make_room insert
  set key value ttl now c = do
    kept ← make_room c.max_size c.store
    ok (record c { store = insert key (value, F.add now (F.of_nat ttl)) kept })

  deleted : String → MemoryCache → Option Entry → Bool × MemoryCache
  unfolding remove
  deleted key c none = (false, c)
  deleted key c (some e) = (true, record c { store = remove key c.store })

  unfoldable pub delete : String → MemoryCache → Bool × MemoryCache
  unfolding deleted lookup
  delete key c = deleted key c (lookup key c.store)

  unfoldable pub flush : MemoryCache → ℕ × MemoryCache
  flush c = (length c.store, record c { store = [] })

  unfoldable pub size : MemoryCache → ℕ
  size c = length c.store
