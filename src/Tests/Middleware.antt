-- ===== src/Tests/Middleware.antt =====
-- Runs of middleware/.
use commandclaw_gateway.Prelude.{
  ℕ, ◌<◌, ◌≤◌, String, ◌≡◌, refl, ◌↔◌, true, false, none, some, List, [], ◌∷◌, arith, length,
  lookup, insert, str, keep, ok,
}
use commandclaw_gateway.Floats.Naturals.{naturals}
use commandclaw_gateway.Redis.Memory.{Memory, memory, memory-IsLawful, empty}
use commandclaw_gateway.Schemas.{IdentityContext}
use commandclaw_gateway.Middleware.RateLimiter.{check_and_increment_rate_limit, Clock, Request}
use commandclaw_gateway.Middleware.Limits.{check_sliding_window, Headers}
use commandclaw_gateway.Middleware.RateLimiter.Window.{held, young, check_sliding_window_lem}
use commandclaw_gateway.Middleware.RateLimiter.Chain.{
  check_and_increment_rate_limit-retry, check_and_increment_rate_limit-room,
}
use commandclaw_gateway.Middleware.MemoryCache.{MemoryCache, new, get, set, size}
use commandclaw_gateway.Middleware.MemoryCache.Bounded.{
  Operation, setting, getting, deleting, perform_all, perform_all-bounded,
}
use commandclaw_gateway.Middleware.MemoryCache.Kept.{get-set}
use commandclaw_gateway.Middleware.Cache.{Json, build_cache_key, hash_val}
use commandclaw_gateway.Middleware.Streaming.{
  Assembler, new_assembler, add_chunks, rechunk_for_streaming,
}
use commandclaw_gateway.Middleware.Streaming.RoundTrip.{rechunk_for_streaming-roundtrip}
use commandclaw_gateway.Middleware.Cache.Keys.{
  team_key, build_cache_key-team, build_cache_key-namespace,
}
use commandclaw_gateway.Middleware.CostTracker.{SpendContext, log_key, record_spend}
use commandclaw_gateway.Middleware.CostTracker.Logged.{record_spend-logged}
use commandclaw_gateway.Middleware.RateLimiter.Recent.{Arrival}
use commandclaw_gateway.Middleware.RateLimiter.Refinement.{decisions, ideal, decisions-ideal}
use commandclaw_gateway.Tests.{user}

check_sliding_window_lem_example :
    let out = check_sliding_window memory "k" 2 60000 70000 "r1" empty in
    ((out.0 ≡ true) ↔ (length (young memory memory-IsLawful "k" 60000 70000 empty) < 2))
    × (out.0 ≡ true → length (held memory memory-IsLawful "k" out.2) ≤ 2)
    × (out.0 ≡ false
        → held memory memory-IsLawful "k" out.2
          ≡ young memory memory-IsLawful "k" 60000 70000 empty)
check_sliding_window_lem_example =
    check_sliding_window_lem memory memory-IsLawful "k" 2 60000 70000 "r1" empty (omega arith)

abbrev slow_user : IdentityContext ℕ
slow_user = record user { rpm_limit = some 1 }

abbrev clock : Clock naturals memory
clock = record { now_ms = 70000; now = 70; today = "20250101"; month = "202501" }

abbrev request : Request naturals memory
request = record { model = "gpt"; tokens = 10; request_id = "r1"; cache_hit = false }

-- The server after one request of the last minute.
abbrev after_one : Memory
after_one = memory.zadd "gateway:rl:key:k1:rpm" 69000 "r0" empty

abbrev refusal : Headers memory
refusal =
    ("x-ratelimit-limit-requests", "1")
    ∷ ("x-ratelimit-remaining-requests", "0")
    ∷ ("retry-after", "60")
    ∷ []

abbrev first_headers : Headers memory
first_headers = ("x-ratelimit-limit-requests", "1") ∷ ("x-ratelimit-remaining-requests", "0") ∷ []

second_refused :
    check_and_increment_rate_limit naturals memory slow_user clock request false after_one
    ≡ ok (false, refusal, memory.zremrangebyscore "gateway:rl:key:k1:rpm" 10000 after_one)
unfolding check_and_increment_rate_limit keep insert str
second_refused = refl

check_and_increment_rate_limit-retry_example :
    (t : String) × (lookup "retry-after" refusal ≡ some t)
check_and_increment_rate_limit-retry_example =
    check_and_increment_rate_limit-retry naturals memory slow_user clock request false after_one _
      refusal second_refused

first_allowed :
    check_and_increment_rate_limit naturals memory slow_user clock request false empty
    ≡ ok (
      true,
      first_headers,
      memory.pexpire "gateway:rl:key:k1:rpm" 60000 (
          memory.zadd "gateway:rl:key:k1:rpm" 70000 "r1"
            (memory.zremrangebyscore "gateway:rl:key:k1:rpm" 10000 empty)),
    )
unfolding check_and_increment_rate_limit keep insert str
first_allowed = refl

check_and_increment_rate_limit-room_example :
    length (young memory memory-IsLawful "gateway:rl:key:k1:rpm" 60000 70000 empty) < 1
check_and_increment_rate_limit-room_example =
    check_and_increment_rate_limit-room naturals memory slow_user clock request memory-IsLawful 1
      empty _ first_headers refl (omega arith) first_allowed

abbrev operations : List (Operation naturals String)
operations = setting "a" "x" 5 0 ∷ setting "b" "y" 5 0 ∷ getting "a" 1 ∷ []

perform_all-bounded_example :
    (c : MemoryCache naturals String) × (perform_all naturals String operations
        (new naturals String 1)
      ≡ ok c)
    × (size naturals String c ≤ 1)
perform_all-bounded_example = perform_all-bounded naturals String 1 operations (omega arith)

abbrev half_full : MemoryCache naturals String
half_full = record { store = ("a", ("x", 5)) ∷ []; max_size = 3 }

abbrev filled : MemoryCache naturals String
filled = record { store = ("a", ("x", 5)) ∷ ("b", ("y", 7)) ∷ []; max_size = 3 }

b_is_set : set naturals String "b" "y" 5 2 half_full ≡ ok filled
unfolding set insert
b_is_set = refl

-- A third entry fills the cache.
abbrev others : List (Operation naturals String)
others = setting "c" "z" 5 3 ∷ getting "a" 4 ∷ deleting "c" ∷ []

get-set_example :
    (c : MemoryCache naturals String) × (perform_all naturals String others filled ≡ ok c)
    × ((get naturals String "b" 7 c).0 ≡ some "y")
unfolding size
get-set_example =
    get-set naturals String "b" "y" 5 2 7 half_full filled others b_is_set
      (refl, (refl, (refl, tt))) (omega arith) refl

abbrev full : MemoryCache naturals String
full = record { store = ("a", ("x", 5)) ∷ []; max_size = 1 }

abbrev replaced : MemoryCache naturals String
replaced = record { store = ("b", ("y", 7)) ∷ []; max_size = 1 }

oldest_dropped : set naturals String "b" "y" 5 2 full ≡ ok replaced
unfolding set
oldest_dropped = refl

rechunk_for_streaming-roundtrip_example :
    let a : Assembler ℕ ℕ =
      add_chunks new_assembler
        (rechunk_for_streaming 50 "id" "a text that is longer than one piece" (1 ∷ []) "stop") in
    (a.full_content ≡ "a text that is longer than one piece") × (a.tool_calls ≡ 1 ∷ [])
rechunk_for_streaming-roundtrip_example =
    rechunk_for_streaming-roundtrip ℕ ℕ 50 "id" "a text that is longer than one piece" (1 ∷ [])
      "stop" (omega arith)

-- Requests whose values are texts, and a hash of one character.
abbrev json : Json
json = record { Value = String; is_none = λ v. false; dumps = λ fields. "{}"; sha256 = λ text. "h" }

abbrev body : List (String × String)
body = ("model", "gpt") ∷ ("user", "u1") ∷ []

build_cache_key-team_example :
    (◌≡◌ {A = String} "t1" "t1") × (hash_val json body ≡ hash_val json body)
unfolding build_cache_key
build_cache_key-team_example =
    build_cache_key-team json body body "t1" "t1" none (some "k1") (λ x y. refl) (λ e. cc) (λ e. cc)
      refl

build_cache_key-namespace_example :
    build_cache_key json body (some "team:t1") "team" (some "t2") (some "k2")
    ≡ team_key json body "t1" (some "k1")
build_cache_key-namespace_example =
    build_cache_key-namespace json body "t1" "team" (some "t2") (some "k2") (some "k1") (λ e. cc)

abbrev context : SpendContext ℕ
context = record {
  log_id = "l1";
  request_id = "r1";
  model = "gpt";
  cache_hit = true;
  tags = [];
  now = 70;
}

record_spend-logged_example :
    let out = record_spend naturals memory (λ log. log.log_id) [] user context 10 20 empty in
    ((older : List String) × (memory.lrange (log_key "k1") out.1 ≡ out.0.log_id ∷ older))
    × (length (memory.lrange (log_key "k1") out.1) ≤ 10000)
    × (true ≡ true → out.0.cost_usd ≡ 0)
record_spend-logged_example =
    record_spend-logged naturals memory memory-IsLawful (λ log. log.log_id) [] user context 10 20
      empty (λ e. cc)

abbrev arrivals : List Arrival
arrivals = ("r1", 1000) ∷ ("r2", 2000) ∷ ("r3", 3000) ∷ ("r4", 61500) ∷ []

decisions-ideal_example : decisions memory "k" 2 60000 arrivals empty ≡ ideal 2 60000 arrivals []
decisions-ideal_example =
    decisions-ideal memory "k" 2 60000 memory-IsLawful (omega arith) arrivals empty refl
      (omega arith, (omega arith, (omega arith, (omega arith, tt))))
      ((refl, (refl, (refl, tt))), ((refl, (refl, tt)), ((refl, tt), (tt, tt))))

third_is_refused : decisions memory "k" 2 60000 arrivals empty ≡ true ∷ true ∷ false ∷ true ∷ []
unfolding decisions keep
third_is_refused = refl
