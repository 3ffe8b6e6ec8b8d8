-- ===== src/Middleware/Limits.antt =====
-- middleware/rate_limiter.py: sliding windows, token totals, quotas, and one limit at a time. The Lua
-- script runs at once on the server. Scores are from 0, so that a window that reaches back before 0
-- removes nothing.
use commandclaw_gateway.Prelude.{
  ℕ, ◌+◌, ◌-◌, String, Bool, true, false, ◌||◌, Option, none, some, List, [], ◌∷◌, ◌==◌, ltb, leb,
  nat_eq, if◌then◌else◌, lookup, insert, ◌<>◌, ℤ, pos, ◌+ℤ◌, ltb_ℤ, int, str, Try, ok, raise, ◌>>=◌,
  or_raise, value_error,
}
use commandclaw_gateway.Redis.{Redis}
use commandclaw_gateway.Routing.Router.{int_or_zero}

abbrev pub or_empty : Option String → String
or_empty none = ""
or_empty (some s) = s

-- `limit` where it is set and not 0
abbrev pub set_limit : Option ℕ → ℕ
set_limit none = 0
set_limit (some n) = n

-- `parts = str(member).rsplit(":", 1)`: the text behind the last colon, if there is one.
unfoldable pub last_part : String → Option String
last_part String.[] = none
last_part (String.◌∷◌ c s) = elim (last_part s) [
  | some t ↦ some t
  | none ↦ if (String.◌∷◌ c String.[]) == ":" then some s else none
]

abbrev no_int : Option ℤ → ℤ
no_int none = pos 0
no_int (some n) = n

-- What a member adds: its last part, or nothing where this is no number.
unfoldable pub tokens_of : String → ℤ
unfolding last_part
tokens_of member = elim (last_part member) [ none ↦ pos 0 | some t ↦ no_int (int t) ]

unfoldable pub total : List (String × ℕ) → ℤ
unfolding tokens_of
total [] = pos 0
total ((m, score) ∷ ms) = tokens_of m +ℤ total ms

unfoldable pub in_window : ℕ → ℕ → List (String × ℕ) → List (String × ℕ)
in_window window_ms now_ms [] = []
in_window window_ms now_ms ((m, score) ∷ ms) =
    let rest = in_window window_ms now_ms ms in
    if leb now_ms (score + window_ms) then (m, score) ∷ rest else rest

module _ (R : Redis) where
  -- `ZREMRANGEBYSCORE key 0 now_ms - window_ms`
  unfoldable pub drop_old : String → ℕ → ℕ → R.State → R.State
  drop_old key window_ms now_ms s =
      if ltb now_ms window_ms then s else R.zremrangebyscore key (now_ms - window_ms) s

  -- Whether the request is allowed, and the count.
  unfoldable pub check_sliding_window : String → ℕ → ℕ → ℕ → String → R.State → Bool × ℕ × R.State
  unfolding drop_old
  check_sliding_window key limit window_ms now_ms member s =
      let s' = drop_old key window_ms now_ms s in
      let count = R.zcard key s' in
      if leb limit count
      then (false, count, s')
      else (true, count + 1, R.pexpire key window_ms (R.zadd key now_ms member s'))

  unfoldable pub check_tpm : String → ℕ → ℕ → ℕ → ℕ → R.State → Bool × ℤ × R.State
  unfolding drop_old total in_window
  check_tpm key limit tokens now_ms window_ms s =
      let s' = drop_old key window_ms now_ms s in
      let current_total = total (in_window window_ms now_ms (R.zrange key s')) in
      if ltb_ℤ (pos limit) (current_total +ℤ pos tokens) then (false, current_total, s') else (
        true,
        current_total +ℤ pos tokens,
        R.pexpire key window_ms (R.zadd key now_ms (str now_ms <> ":" <> str tokens) s'),
      )

  unfoldable pub check_quota : String → ℕ → ℕ → R.State → Try (Bool × R.State)
  check_quota key limit increment s = do
    current ← int_or_zero (R.get key s)
    ok (
        if ltb_ℤ (pos limit) (current +ℤ pos increment)
        then (false, s)
        else (true, R.incrby key increment s))

  abbrev pub Headers : Type 0
  Headers = List (String × String)

  -- Whether the request is allowed so far, the headers, and the server.
  abbrev pub Outcome : Type 0
  Outcome = Bool × Headers × R.State

  -- The next limit, unless this one has refused the request.
  abbrev pub and_then : Try Outcome → (Headers → R.State → Try Outcome) → Try Outcome
  and_then (raise e) next = raise e
  and_then (ok (true, headers, s)) next = next headers s
  and_then (ok (false, headers, s)) next = ok (false, headers, s)

  -- `headers["retry-after"] = ...; return False, headers` where the request is not allowed
  abbrev pub refuse : String → Bool → Headers → R.State → Outcome
  refuse after true headers s = (true, headers, s)
  refuse after false headers s = (false, insert "retry-after" after headers, s)

  -- A limit of requests per minute that sets no other header; a limit of 0 is none.
  unfoldable pub limit_rpm : String → ℕ → ℕ → String → Headers → R.State → Try Outcome
  unfolding check_sliding_window
  limit_rpm key limit now_ms request_id headers s =
      if nat_eq limit 0
      then ok (true, headers, s)
      else let (allowed, count, s') = check_sliding_window key limit 60000 now_ms request_id s in
        ok (refuse "60" allowed headers s')

  -- A limit of tokens per minute, skipped for a cached response and for a request without tokens.
  unfoldable pub limit_tpm : String → ℕ → ℕ → Bool → ℕ → Headers → R.State → Try Outcome
  unfolding check_tpm
  limit_tpm key limit tokens cache_hit now_ms headers s =
      if nat_eq limit 0 || cache_hit || nat_eq tokens 0
      then ok (true, headers, s)
      else let (allowed, count, s') = check_tpm key limit tokens now_ms 60000 s in
        ok (refuse "60" allowed headers s')

  -- A quota; whether it is met or not, its counter expires after `period`.
  unfoldable pub limit_quota : String → ℕ → ℕ → ℕ → String → Bool → Headers → R.State → Try Outcome
  unfolding check_quota
  limit_quota key limit tokens period after cache_hit headers s =
      if nat_eq limit 0 || cache_hit then ok (true, headers, s) else do
        result ← check_quota key limit tokens s
        ok (refuse after result.0 headers (R.expire key period result.1))

  -- `int(data.get(field, "0")) if data else 0`
  unfoldable pub limit_field : String → List (String × String) → Try ℤ
  limit_field field stored = elim (lookup field stored) [
    | none ↦ ok (pos 0)
    | some text ↦ or_raise value_error (int text)
  ]

  -- A limit read from a hash; a negative one refuses every request.
  unfoldable pub stored_rpm : String → ℤ → ℕ → String → Headers → R.State → Try Outcome
  unfolding limit_rpm drop_old
  stored_rpm key (pos n) now_ms request_id headers s = limit_rpm key n now_ms request_id headers s
  stored_rpm key (ℤ.negsuc n) now_ms request_id headers s =
      ok (refuse "60" false headers (drop_old key 60000 now_ms s))

  unfoldable pub stored_tpm : String → ℤ → ℕ → Bool → ℕ → Headers → R.State → Try Outcome
  unfolding limit_tpm drop_old
  stored_tpm key (pos n) tokens cache_hit now_ms headers s =
      limit_tpm key n tokens cache_hit now_ms headers s
  stored_tpm key (ℤ.negsuc n) tokens cache_hit now_ms headers s =
      if cache_hit || nat_eq tokens 0
      then ok (true, headers, s)
      else ok (refuse "60" false headers (drop_old key 60000 now_ms s))

  -- `str(max(0, limit - current))`
  unfoldable pub remaining : ℕ → ℤ → String
  remaining limit (pos n) = str (limit - n)
  remaining limit (ℤ.negsuc n) = str (limit + n + 1)

  -- The key's own requests per minute, by a sliding window.
  unfoldable pub key_rpm : String → ℕ → ℕ → String → Headers → R.State → Try Outcome
  unfolding check_sliding_window
  key_rpm key limit now_ms request_id headers s =
      let (allowed, current, s') = check_sliding_window key limit 60000 now_ms request_id s in
      let shown = insert "x-ratelimit-limit-requests" (str limit) headers in
      ok (
        refuse "60" allowed (insert "x-ratelimit-remaining-requests" (str (limit - current)) shown)
          s')

  -- The key's own tokens per minute.
  unfoldable pub key_tpm : String → ℕ → ℕ → Bool → ℕ → Headers → R.State → Try Outcome
  unfolding check_tpm remaining
  key_tpm key limit tokens cache_hit now_ms headers s =
      if nat_eq limit 0 || cache_hit || nat_eq tokens 0
      then ok (true, headers, s)
      else let (allowed, current, s') = check_tpm key limit tokens now_ms 60000 s in
        let shown = insert "x-ratelimit-limit-tokens" (str limit) headers in
        ok (
          refuse "60" allowed
            (insert "x-ratelimit-remaining-tokens" (remaining limit current) shown) s')
