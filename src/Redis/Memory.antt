-- ===== src/Redis/Memory.antt =====
-- A server that keeps its keys in functions: the commands' laws can be met.
use commandclaw_gateway.Prelude.{
  ℕ, suc, ◌+◌, ◌-◌, ◌/◌, contains, String, ◌≡◌, refl, ap, ◌∙◌, true, Bool, Option, some, none, List,
  [], ◌∷◌, ◌==◌, ltb, if◌then◌else◌, length, lookup, insert, lookup-insert, keep, take, str, not,
  eq_self, is_empty, arith,
}
use commandclaw_gateway.Redis.{Redis, counter, written, new_fields, IsLawful}

pub record Memory : Type 0 where
  pub strings : String → Option String
  pub hashes : String → List (String × String)
  pub zsets : String → List (String × ℕ)
  pub sets : String → List String
  pub lists : String → List String
  pub ttls : String → Option ℕ

abbrev pub empty : Memory
empty = record {
  strings = λ k. none;
  hashes = λ k. [];
  zsets = λ k. [];
  sets = λ k. [];
  lists = λ k. [];
  ttls = λ k. none;
}

abbrev put {ℓ} : {V : Type ℓ} → (String → V) → String → V → String → V
put f k v j = if k == j then v else f j

abbrev write : List (String × String) → List (String × String) → List (String × String)
write [] d = d
write ((f, v) ∷ fs) d = insert f v (write fs d)

-- A text that is no number counts as 0 here; the laws leave that case open.
abbrev count : Option String → ℕ
count o = elim (counter o) [ none ↦ 0 | some n ↦ n ]

-- Is a string or a hash at the key?
unfoldable pub held : Option String → List (String × String) → Bool
held none d = not (is_empty d)
held (some v) d = true

abbrev pub memory : Redis
memory = record {
  State = Memory;
  get = λ k s. s.strings k;
  set = λ k v s. record s { strings = put s.strings k (some v); ttls = put s.ttls k none };
  setex = λ k t v s. record s { strings = put s.strings k (some v); ttls = put s.ttls k (some t) };
  incr = λ k s. (
    count (s.strings k) + 1,
    record s { strings = put s.strings k (some (str (count (s.strings k) + 1))) },
  );
  decr = λ k s. record s { strings = put s.strings k (some (str (count (s.strings k) - 1))) };
  incrby = λ k n s. record s { strings = put s.strings k (some (str (count (s.strings k) + n))) };
  incrbyfloat = λ k t s. (
    str (count (s.strings k) + count (some t)),
    record s { strings = put s.strings k (some (str (count (s.strings k) + count (some t)))) },
  );
  exists = λ k s. held (s.strings k) (s.hashes k);
  delete = λ k s. record s {
    strings = put s.strings k none;
    hashes = put s.hashes k [];
    zsets = put s.zsets k [];
    sets = put s.sets k [];
    lists = put s.lists k [];
    ttls = put s.ttls k none;
  };
  expire = λ k t s. record s { ttls = put s.ttls k (some t) };
  pexpire = λ k t s. record s { ttls = put s.ttls k (some (t / 1000)) };
  ttl = λ k s. s.ttls k;
  hgetall = λ k s. s.hashes k;
  hset = λ k fs s.
      (new_fields fs (s.hashes k), record s { hashes = put s.hashes k (write fs (s.hashes k)) });
  zrange = λ k s. s.zsets k;
  zadd = λ k x m s. record s {
    zsets = put s.zsets k ((m, x) ∷ keep (λ p. not (p.0 == m)) (s.zsets k));
  };
  zremrangebyscore =
      λ k top s. record s { zsets = put s.zsets k (keep (λ p. ltb top p.1) (s.zsets k)) };
  zcard = λ k s. length (s.zsets k);
  sadd = λ k m s. record s {
    sets = put s.sets k (if contains (s.sets k) m then s.sets k else m ∷ s.sets k);
  };
  smembers = λ k s. s.sets k;
  lrange = λ k s. s.lists k;
  lpush = λ k v s. record s { lists = put s.lists k (v ∷ s.lists k) };
  ltrim = λ k n s. record s { lists = put s.lists k (take (suc n) (s.lists k)) };
}

put_self {ℓ} : {V : Type ℓ} (f : String → V) (k : String) (v : V) → put f k v k ≡ v
put_self f k v = rw (eq_self k)

lookup-write :
    (f : String) (fs d : List (String × String))
    → lookup f (write fs d) ≡ written (lookup f fs) (lookup f d)
unfolding lookup
lookup-write f [] d = refl
lookup-write f ((g, v) ∷ fs) d =
    ground (arith, lookup-insert g f v (write fs d), lookup-write f fs d)

count_lem : (o : Option String) (n : ℕ) → counter o ≡ some n → count o ≡ n
count_lem o n e = ground arith

pub memory-IsLawful : IsLawful memory
unfolding held
memory-IsLawful = record {
  get-set = λ k v s. rw (eq_self k);
  set_frame = λ k v s j h. record {
    get = rw h;
    exists = rw (h, memory);
    ttl = rw h;
    hgetall = refl;
    zrange = refl;
    lrange = refl;
  };
  get-setex = λ k v t s h. rw (eq_self k);
  setex_frame = λ k v t s j h. record {
    get = rw h;
    exists = rw (h, memory);
    ttl = rw h;
    hgetall = refl;
    zrange = refl;
    lrange = refl;
  };
  incr-value = λ k n s e. ground arith;
  get-incr = λ k n s e.
      put_self s.strings k _ ∙ ap (λ (c : ℕ). some (str (c + 1))) (count_lem (s.strings k) n e);
  incr_frame = λ k s j h. record {
    get = rw h;
    exists = rw (h, memory);
    ttl = refl;
    hgetall = refl;
    zrange = refl;
    lrange = refl;
  };
  get-expire = λ k t s h. refl;
  hgetall-expire = λ k t s h. refl;
  zrange-expire = λ k t s h. refl;
  ttl-expire = λ k v t s h. rw (eq_self k);
  expire_frame = λ k t s j h. record {
    get = refl;
    exists = refl;
    ttl = rw h;
    hgetall = refl;
    zrange = refl;
    lrange = refl;
  };
  get-delete = λ k s. rw (eq_self k);
  hgetall-delete = λ k s. rw (eq_self k);
  delete_frame = λ k s j h. record {
    get = rw h;
    exists = rw (h, memory);
    ttl = rw h;
    hgetall = rw h;
    zrange = rw h;
    lrange = rw h;
  };
  exists-get = λ k v s h. rw h;
  hset-count = λ k fs s. refl;
  hgetall-hset = λ k f fs s. rw (eq_self k) (lookup-write f fs (s.hashes k));
  hset_frame = λ k fs s j h. record {
    get = refl;
    exists = rw (h, memory);
    ttl = refl;
    hgetall = rw h;
    zrange = refl;
    lrange = refl;
  };
  zcard_lem = λ k s. refl;
  zrange-zremrangebyscore = λ k top s. rw (eq_self k);
  zrange-zadd = λ k m x s. ([], keep (λ p. not (p.0 == m)) (s.zsets k), refl, rw (eq_self k));
  zrange-pexpire = λ k t s h. refl;
  lrange-lpush = λ k v s. rw (eq_self k);
  lpush_frame = λ k v s j h. record {
    get = refl;
    exists = refl;
    ttl = refl;
    hgetall = refl;
    zrange = refl;
    lrange = rw h;
  };
  lrange-ltrim = λ k n s. rw (eq_self k);
  ltrim_frame = λ k n s j h. record {
    get = refl;
    exists = refl;
    ttl = refl;
    hgetall = refl;
    zrange = refl;
    lrange = rw h;
  };
}
