-- ===== src/Middleware/Cache.antt =====
-- middleware/cache.py: keys, lives and stores of cached responses. Outside of the
-- program are `json`, SHA-256 and `time.time`. An exception while reading or writing is logged, and
-- counts as no response.
pub mod Keys
use commandclaw_gateway.Prelude.{
  ℕ, zero, suc, ◌+◌, String, Bool, true, false, not, ◌&&◌, Option, none, some, List, [], ◌∷◌, ◌++◌,
  ◌==◌, nat_eq, if◌then◌else◌, keep, contains, is_empty, lookup, insert, truthy, starts_with, ◌<>◌,
  drop_chars, Try, ok, raise,
}
use commandclaw_gateway.Floats.{Floats}
use commandclaw_gateway.Redis.{Redis}
use commandclaw_gateway.Config.{CacheSettings}
use commandclaw_gateway.Auth.VirtualKeys.{text_or}
use commandclaw_gateway.Middleware.MemoryCache.{MemoryCache, Entry, get, set}

abbrev pub cache_key_fields : List String
cache_key_fields =
    "model" ∷ "messages" ∷ "temperature" ∷ "top_p" ∷ "max_tokens" ∷ "tools" ∷ "tool_choice"
    ∷ "response_format" ∷ "seed" ∷ "stop" ∷ "frequency_penalty" ∷ "presence_penalty" ∷ []

-- `json` and `hashlib` on the values of a request.
pub record Json : Type 1 where
  pub Value : Type 0
  pub is_none : Value → Bool
  pub dumps : List (String × Value) → String
  pub sha256 : String → String

module _ (J : Json) where
  unfoldable pub relevant : List (String × J.Value) → List (String × J.Value)
  unfolding keep contains
  relevant request =
      keep (λ (p : String × J.Value). contains cache_key_fields p.0 && not (J.is_none p.1)) request

  unfoldable pub hash_val : List (String × J.Value) → String
  unfolding relevant
  hash_val request = J.sha256 (J.dumps (relevant request))

  unfoldable pub build_cache_key :
      List (String × J.Value) → Option String → String → Option String → Option String → String
  unfolding hash_val
  build_cache_key request namespace cache_scope team_id key_id =
      if truthy namespace
      then "gateway:cache:" <> text_or "" namespace <> ":" <> hash_val request
      else if cache_scope == "team" && truthy team_id
      then "gateway:cache:team:" <> text_or "" team_id <> ":" <> hash_val request
      else if cache_scope == "key" && truthy key_id
      then "gateway:cache:key:" <> text_or "" key_id <> ":" <> hash_val request
      else "gateway:cache:" <> hash_val request

unfoldable pub should_cache_call_type : CacheSettings → String → Bool
unfolding contains
should_cache_call_type c call_type = contains c.supported_call_types call_type

prefix_ttl : String → List (String × ℕ) → ℕ → ℕ
prefix_ttl model [] d = d
prefix_ttl model ((name, ttl) ∷ per_model) d =
    if starts_with model name then ttl else prefix_ttl model per_model d

unfoldable pub get_ttl_for_model : CacheSettings → String → ℕ
unfolding prefix_ttl lookup
get_ttl_for_model c model = elim (lookup model c.per_model_ttl) [
  | some ttl ↦ ttl
  | none ↦ prefix_ttl model c.per_model_ttl c.default_ttl
]

-- What `parse_cache_control` reads in the metadata of a request, and what it makes of it.
pub record CacheMetadata : Type 0 where
  pub cache_control : Option String
  pub cache_ttl : Option ℕ
  pub cache_s_maxage : Option ℕ
  pub cache_namespace : Option String

pub record CacheControl : Type 0 where
  pub no_cache : Bool
  pub no_store : Bool
  pub ttl : Option ℕ
  pub s_maxage : Option ℕ
  pub namespace : Option String

unfoldable pub parse_cache_control : CacheMetadata → CacheControl
parse_cache_control m = record {
  no_cache = text_or "" m.cache_control == "no-cache";
  no_store = text_or "" m.cache_control == "no-store";
  ttl = m.cache_ttl;
  s_maxage = m.cache_s_maxage;
  namespace = m.cache_namespace;
}

-- A response, of which the cache reads and writes `_cached_at` and `model`; `unstamp` takes
-- `_cached_at` out.
pub record Responses (F : Floats) : Type 1 where
  pub Response : Type 0
  pub stamp : F.Float → String → Response → Response
  pub cached_at : Response → F.Float
  pub unstamp : Response → Response
  pub dumps : Response → String
  pub loads : String → Option Response

module _ (F : Floats) (R : Redis) (J : Responses F) where
  pub record Stores : Type 0 where
    pub server : R.State
    pub local : MemoryCache F J.Response

  abbrev index_key : String → String
  index_key model = "gateway:cache_index:model:" <> model

  -- `if s_maxage is not None: ...`
  unfoldable pub fresh_enough : Option ℕ → F.Float → Option J.Response → Option J.Response
  fresh_enough s_maxage now none = none
  fresh_enough none now (some r) = some r
  fresh_enough (some age) now (some r) =
      if F.lt (F.of_nat age) (F.sub now (J.cached_at r)) then none else some r

  load : Option String → Option J.Response
  load none = none
  load (some text) = J.loads text

  read_local :
      Option ℕ
      → F.Float
      → Stores
      → Option J.Response × MemoryCache F J.Response
      → Option J.Response × Stores
  unfolding fresh_enough
  read_local s_maxage now st (response, local) =
      (fresh_enough s_maxage now response, record st { local = local })

  unfoldable pub get_cached_response :
      CacheSettings → String → Option ℕ → F.Float → Stores → Option J.Response × Stores
  unfolding fresh_enough load read_local
  get_cached_response c cache_key s_maxage now st =
      if c.backend == "none"
      then (none, st)
      else if c.backend == "memory"
      then read_local s_maxage now st (get F J.Response cache_key now st.local)
      else (fresh_enough s_maxage now (load (R.get cache_key st.server)), st)

  popped :
      String → MemoryCache F J.Response → Option (Entry F J.Response) → MemoryCache F J.Response
  unfolding insert
  popped key local none = local
  popped key local (some (response, until)) = record local {
    store = insert key (J.unstamp response, until) local.store;
  }

  -- The cache in memory after `cached.pop("_cached_at", None)` on what it has returned: it holds the
  -- dict itself, and not a copy.
  unfoldable pub after_pop :
      CacheSettings → Option String → MemoryCache F J.Response → MemoryCache F J.Response
  unfolding popped lookup
  after_pop c none local = local
  after_pop c (some key) local =
      if c.backend == "memory" then popped key local (lookup key local.store) else local

  -- `ttl_override or _get_ttl_for_model(model)`
  unfoldable pub chosen_ttl : CacheSettings → String → Option ℕ → ℕ
  chosen_ttl c model none = get_ttl_for_model c model
  chosen_ttl c model (some n) = if nat_eq n 0 then get_ttl_for_model c model else n

  -- The write puts its time and the model into the response itself, which the caller then has.
  unfoldable pub written_response : CacheSettings → J.Response → String → F.Float → J.Response
  written_response c response model now =
      if c.backend == "none" then response else J.stamp now model response

  kept_local : Stores → Try (MemoryCache F J.Response) → Stores
  kept_local st (ok local) = record st { local = local }
  kept_local st (raise e) = st

  unfoldable pub set_cached_response :
      CacheSettings → String → J.Response → String → Option ℕ → F.Float → Stores → Stores
  unfolding chosen_ttl kept_local
  set_cached_response c cache_key response model ttl_override now st =
      let stamped = J.stamp now model response in
      let ttl = chosen_ttl c model ttl_override in
      if c.backend == "none"
      then st
      else if c.backend == "memory"
      then kept_local st (set F J.Response cache_key stamped ttl now st.local)
      else record st {
        server = R.expire (index_key model) (ttl + 60) (
            R.sadd (index_key model) cache_key (R.setex cache_key ttl (J.dumps stamped) st.server));
      }
