-- ===== src/Redis.antt =====
-- The Redis server, which the gateway calls through `redis.asyncio` (infra/redis_client.py): its
-- commands on an unknown state, and their documented behaviour as laws. A command acts at once, on a
-- key that holds its own type of value, and no other client acts in between.
pub mod Memory
use commandclaw_gateway.Prelude.{
  ℕ, suc, ◌+◌, ◌<◌, ◌≤◌, String, ◌≡◌, Bool, true, false, Option, some, none, List, [], ◌∷◌, ◌==◌,
  ltb, ◌++◌, length, lookup, keep, take, nat, str, not,
}

pub record Redis : Type 1 where
  pub State : Type 0
  -- strings; `none` for no such key
  pub get : String → State → Option String
  pub set : String → String → State → State
  pub setex : String → ℕ → String → State → State
  pub incr : String → State → ℕ × State
  pub decr : String → State → State
  pub incrby : String → ℕ → State → State
  -- `INCRBYFLOAT`, with the amount and the new value as texts
  pub incrbyfloat : String → String → State → String × State
  -- keys
  pub exists : String → State → Bool
  pub delete : String → State → State
  pub expire : String → ℕ → State → State
  pub pexpire : String → ℕ → State → State
  pub ttl : String → State → Option ℕ
  -- hashes; `hset` returns the number of new fields
  pub hgetall : String → State → List (String × String)
  pub hset : String → List (String × String) → State → ℕ × State
  -- sorted sets, as pairs of a member and its score
  pub zrange : String → State → List (String × ℕ)
  pub zadd : String → ℕ → String → State → State
  -- `ZREMRANGEBYSCORE key 0 top`
  pub zremrangebyscore : String → ℕ → State → State
  pub zcard : String → State → ℕ
  -- sets
  pub sadd : String → String → State → State
  pub smembers : String → State → List String
  -- lists
  pub lrange : String → State → List String
  pub lpush : String → String → State → State
  -- `LTRIM key 0 n`: the first n + 1 entries stay
  pub ltrim : String → ℕ → State → State

-- Nothing that can be read at the key `j` differs.
pub record SameAt (R : Redis) (j : String) (s t : R.State) : Type 0 where
  pub get : R.get j s ≡ R.get j t
  pub exists : R.exists j s ≡ R.exists j t
  pub ttl : R.ttl j s ≡ R.ttl j t
  pub hgetall : R.hgetall j s ≡ R.hgetall j t
  pub zrange : R.zrange j s ≡ R.zrange j t
  pub lrange : R.lrange j s ≡ R.lrange j t

-- A command on `k` leaves the other keys alone.
abbrev pub Frame : (R : Redis) → String → R.State → R.State → Type 0
Frame R k s t = (j : String) → (k == j) ≡ false → SameAt R j t s

-- `INCR` and `INCRBY` read a missing key as 0.
abbrev pub counter : Option String → Option ℕ
counter none = some 0
counter (some text) = nat text

-- The value of a field after `HSET`.
abbrev pub written : Option String → Option String → Option String
written none old = old
written (some v) old = some v

abbrev pub new_fields : List (String × String) → List (String × String) → ℕ
new_fields [] d = 0
new_fields ((f, v) ∷ fs) d = (elim (lookup f d) [ none ↦ 1 | some w ↦ 0 ]) + new_fields fs d

-- The documented behaviour of the commands that the theorems rest on.
pub record IsLawful (R : Redis) : Type 0 where
  pub get-set : (k v : String) (s : R.State) → R.get k (R.set k v s) ≡ some v
  pub set_frame : (k v : String) (s : R.State) → Frame R k s (R.set k v s)
  pub get-setex : (k v : String) (t : ℕ) (s : R.State) → 0 < t → R.get k (R.setex k t v s) ≡ some v
  pub setex_frame : (k v : String) (t : ℕ) (s : R.State) → Frame R k s (R.setex k t v s)
  pub incr-value :
      (k : String) (n : ℕ) (s : R.State) → counter (R.get k s) ≡ some n → (R.incr k s).0 ≡ n + 1
  pub get-incr :
      (k : String) (n : ℕ) (s : R.State)
      → counter (R.get k s) ≡ some n
      → R.get k (R.incr k s).1 ≡ some (str (n + 1))
  pub incr_frame : (k : String) (s : R.State) → Frame R k s (R.incr k s).1
  pub get-expire : (k : String) (t : ℕ) (s : R.State) → 0 < t → R.get k (R.expire k t s) ≡ R.get k s
  pub hgetall-expire :
      (k : String) (t : ℕ) (s : R.State) → 0 < t → R.hgetall k (R.expire k t s) ≡ R.hgetall k s
  pub zrange-expire :
      (k : String) (t : ℕ) (s : R.State) → 0 < t → R.zrange k (R.expire k t s) ≡ R.zrange k s
  pub ttl-expire :
      (k v : String) (t : ℕ) (s : R.State) → R.get k s ≡ some v → R.ttl k (R.expire k t s) ≡ some t
  pub expire_frame : (k : String) (t : ℕ) (s : R.State) → Frame R k s (R.expire k t s)
  pub get-delete : (k : String) (s : R.State) → R.get k (R.delete k s) ≡ none
  pub hgetall-delete : (k : String) (s : R.State) → R.hgetall k (R.delete k s) ≡ []
  pub delete_frame : (k : String) (s : R.State) → Frame R k s (R.delete k s)
  pub exists-get : (k v : String) (s : R.State) → R.get k s ≡ some v → R.exists k s ≡ true
  pub hset-count :
      (k : String) (fs : List (String × String)) (s : R.State)
      → (R.hset k fs s).0 ≡ new_fields fs (R.hgetall k s)
  pub hgetall-hset :
      (k f : String) (fs : List (String × String)) (s : R.State)
      → lookup f (R.hgetall k (R.hset k fs s).1) ≡ written (lookup f fs) (lookup f (R.hgetall k s))
  pub hset_frame :
      (k : String) (fs : List (String × String)) (s : R.State) → Frame R k s (R.hset k fs s).1
  pub zcard_lem : (k : String) (s : R.State) → R.zcard k s ≡ length (R.zrange k s)
  pub zrange-zremrangebyscore :
      (k : String) (top : ℕ) (s : R.State)
      → R.zrange k (R.zremrangebyscore k top s) ≡ keep (λ p. ltb top p.1) (R.zrange k s)
  -- A new score takes the place of the member's old one.
  pub zrange-zadd :
      (k m : String) (x : ℕ) (s : R.State)
      → (before after : List (String × ℕ)) × (keep (λ p. not (p.0 == m)) (R.zrange k s)
          ≡ before ++ after)
        × (R.zrange k (R.zadd k x m s) ≡ before ++ (m, x) ∷ after)
  pub zrange-pexpire :
      (k : String) (t : ℕ) (s : R.State) → 0 < t → R.zrange k (R.pexpire k t s) ≡ R.zrange k s
  pub lrange-lpush : (k v : String) (s : R.State) → R.lrange k (R.lpush k v s) ≡ v ∷ R.lrange k s
  pub lpush_frame : (k v : String) (s : R.State) → Frame R k s (R.lpush k v s)
  pub lrange-ltrim :
      (k : String) (n : ℕ) (s : R.State) → R.lrange k (R.ltrim k n s) ≡ take (suc n) (R.lrange k s)
  pub ltrim_frame : (k : String) (n : ℕ) (s : R.State) → Frame R k s (R.ltrim k n s)
