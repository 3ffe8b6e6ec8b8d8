-- ===== src/Routing/Retries.antt =====
-- routing/retries.py: retry policies, backoff and the classes of provider errors.
pub mod Decision
use commandclaw_gateway.Prelude.{
  ℕ, String, Bool, true, false, not, ◌&&◌, ◌||◌, Option, none, some, List, [], ◌∷◌, ltb, leb,
  nat_eq, if◌then◌else◌, lower, includes, strip, ◌==◌, or_text,
}
use mathlib.Core.Option
use commandclaw_gateway.Floats.{Floats}

-- The keyword arguments of `RetryPolicy` and of `AllowedFailsPolicy`, and their map by status.
pub record Policy : Type 0 where
  pub bad_request : ℕ
  pub auth_error : ℕ
  pub timeout : ℕ
  pub rate_limit : ℕ
  pub content_policy : ℕ
  pub server_error : ℕ
  pub default : ℕ

abbrev pub retry_policy : Policy
retry_policy = record {
  bad_request = 0;
  auth_error = 0;
  timeout = 4;
  rate_limit = 3;
  content_policy = 0;
  server_error = 2;
  default = 3;
}

abbrev pub allowed_fails_policy : Policy
allowed_fails_policy = record {
  bad_request = 1000;
  auth_error = 1;
  timeout = 5;
  rate_limit = 10;
  content_policy = 50;
  server_error = 3;
  default = 3;
}

abbrev policy_map : Policy → List (ℕ × ℕ)
policy_map p =
    (400, p.bad_request)
    ∷ (401, p.auth_error)
    ∷ (403, p.auth_error)
    ∷ (408, p.timeout)
    ∷ (429, p.rate_limit)
    ∷ (451, p.content_policy)
    ∷ (500, p.server_error)
    ∷ (502, p.server_error)
    ∷ (503, p.server_error)
    ∷ (504, p.timeout)
    ∷ []

-- `self._map.get(status_code, self.default)`
find_status : ℕ → List (ℕ × ℕ) → ℕ → ℕ
find_status status [] default = default
find_status status ((code, n) ∷ m) default =
    if nat_eq code status then n else find_status status m default

unfoldable pub max_retries_for : Policy → ℕ → ℕ
unfolding find_status
max_retries_for p status = find_status status (policy_map p) p.default

unfoldable pub allowed_fails_for : Policy → ℕ → ℕ
unfolding find_status
allowed_fails_for p status = find_status status (policy_map p) p.default

abbrev pub retryable_status_codes : List ℕ
retryable_status_codes = 429 ∷ 500 ∷ 502 ∷ 503 ∷ 504 ∷ []

abbrev pub non_retryable_status_codes : List ℕ
non_retryable_status_codes = 400 ∷ 401 ∷ 403 ∷ 404 ∷ []

abbrev pub among : ℕ → List ℕ → Bool
among n [] = false
among n (m ∷ ms) = nat_eq m n || among n ms

unfoldable pub should_retry : ℕ → ℕ → ℕ → Option Policy → Bool
should_retry status attempt max_retries (some p) = ltb attempt (max_retries_for p status)
should_retry status attempt max_retries none =
    if leb max_retries attempt
    then false
    else if among status non_retryable_status_codes
    then false
    else among status retryable_status_codes

-- The `error` of a response body: a dict with optional texts, a text, or another value. `no_body`
-- is a missing or empty body.
pub data ErrorBody : Type 0 where
  no_body : ErrorBody
  dict : Option String → Option String → ErrorBody
  text : String → ErrorBody
  other : ErrorBody

abbrev or_empty : Option String → String
or_empty none = ""
or_empty (some s) = s

-- `any(i in message for i in indicators)`
any_in : List String → String → Bool
unfolding includes
any_in [] message = false
any_in (i ∷ is) message = includes i message || any_in is message

abbrev pub context_indicators : List String
context_indicators =
    "context length" ∷ "context_length" ∷ "maximum context" ∷ "token limit" ∷ "too many tokens"
    ∷ "max_tokens" ∷ "input too long" ∷ []

context_message : ErrorBody → String
context_message no_body = ""
context_message (dict message code) = lower (or_empty message)
context_message (text message) = lower message
context_message other = ""

unfoldable pub is_context_window_error : ℕ → ErrorBody → Bool
unfolding any_in context_message lower
is_context_window_error status no_body = false
is_context_window_error status body =
    nat_eq status 400 && any_in context_indicators (context_message body)

abbrev pub policy_indicators : List String
policy_indicators = "content policy" ∷ "content filter" ∷ "blocked" ∷ "safety" ∷ "moderation" ∷ []

-- A body that is a text leaves `error_msg` empty here, unlike in `is_context_window_error`.
policy_body : ErrorBody → Bool
unfolding any_in lower includes
policy_body no_body = false
policy_body (dict message code) =
    let c = lower (or_empty code) in
    if includes "content_policy" c || includes "content_filter" c
    then true
    else any_in policy_indicators (lower (or_empty message))
policy_body (text message) = false
policy_body other = false

unfoldable pub is_content_policy_error : ℕ → ErrorBody → Bool
unfolding policy_body
is_content_policy_error status body = (nat_eq status 400 || nat_eq status 451) && policy_body body

-- `headers.get("retry-after") or headers.get("Retry-After")`, `""` where there is none.
either_header : Option String → Option String → String
either_header none b = or_empty b
either_header (some v) b = if v == "" then or_empty b else v

module _ (F : Floats) where
  -- `min(a, b)` and `max(a, b)`: the first argument, unless the second is smaller (larger).
  unfoldable pub min_float : F.Float → F.Float → F.Float
  min_float a b = if F.lt b a then b else a

  unfoldable pub max_float : F.Float → F.Float → F.Float
  max_float a b = if F.lt a b then b else a

  -- `jitter` is what `random.uniform(0, 1)` returned.
  unfoldable pub compute_backoff : F.Float → ℕ → F.Float → F.Float → F.Float
  unfolding min_float
  compute_backoff jitter attempt base max_wait =
      min_float (F.add (F.scale base attempt) jitter) max_wait

  -- `date` reads an HTTP date as a timestamp, `none` where that raises.
  unfoldable pub parse_retry_after :
      (String → Option F.Float) → F.Float → Option String → Option String → Option F.Float
  unfolding max_float strip either_header
  parse_retry_after date now lower_header upper_header =
      let value = either_header lower_header upper_header in
      if value == "" then none else elim (F.parse (strip value)) [
        | some wait ↦ some wait
        | none ↦ Option.map (λ t. max_float F.zero (F.sub t now)) (date (strip value))
      ]
