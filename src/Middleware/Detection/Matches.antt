-- ===== src/Middleware/Detection/Matches.antt =====
-- middleware/guardrails.py: the matches of one pattern lie in the text and do not overlap, so that
-- their redaction replaces exactly them.
use commandclaw_gateway.Prelude.{
  ℕ, zero, suc, ◌+◌, ◌-◌, ◌<◌, ◌≤◌, String, ◌≡◌, inl, inr, Bool, Option, none, some, List, [], ◌∷◌,
  map, arith, All, Option-cases,
}
use Prim.Native.Char.{Char}
use mathlib.Core.List.{append-nil as List_append-nil}
use commandclaw_gateway.Prelude.Regex.{Regex, match, find_all}
use commandclaw_gateway.Middleware.Streaming.RoundTrip.{len}
use commandclaw_gateway.Middleware.Detection.{Finding, finding_of, detect_each, redact_pii}
use commandclaw_gateway.Middleware.Patterns.{Characters}
use commandclaw_gateway.Middleware.Detection.Redaction.{redact_pii_lem}
use commandclaw_gateway.Middleware.Detection.Erased.{erased}
use commandclaw_gateway.Middleware.Detection.Order.{Within, Apart, AllApart}
use commandclaw_gateway.Middleware.Detection.Lengths.{least, match-length}

module _ (is_word : Char → Bool) where
  -- Matches one behind the other, between two places.
  abbrev Ascending : ℕ → ℕ → List (ℕ × ℕ) → Type 0
  Ascending low high [] = Unit
  Ascending low high (m ∷ ms) =
      (low ≤ m.0) × (0 < m.1) × (m.0 + m.1 ≤ high) × Ascending (m.0 + m.1) high ms

  lower :
      (low low' high : ℕ) (ms : List (ℕ × ℕ))
      → low' ≤ low
      → Ascending low high ms
      → Ascending low' high ms
  lower low low' high [] le h = tt
  lower low low' high (m ∷ ms) le (from, some_text, ends, rest) =
      (omega arith, some_text, ends, rest)

  find_all-Ascending :
      (r : Regex) (skip : ℕ) (before : Option Char) (i high : ℕ) (s : String)
      → 0 < least r
      → skip ≤ len s
      → i + len s ≡ high
      → Ascending (i + skip) high (find_all is_word r skip before i s)
  unfolding find_all
  find_all-Ascending r skip before i high String.[] asks fits ends = tt
  find_all-Ascending r (suc skip) before i high (String.◌∷◌ c s) asks fits ends =
      lower (i + 1 + skip) (i + suc skip) high _ (omega arith)
        (find_all-Ascending r skip (some c) (i + 1) high s asks (omega arith) (omega arith))
  find_all-Ascending r zero before i high (String.◌∷◌ c s) asks fits ends =
      elim (Option-cases (match is_word r before i (String.◌∷◌ c s))) [
        | inl missing ↦
            rw (missing, find_all)
              (lower (i + 1 + 0) (i + 0) high _ (omega arith)
                (find_all-Ascending r 0 (some c) (i + 1) high s asks (omega arith) (omega arith)))
        | inr (n, found) ↦
            let (long, fits) = match-length is_word r before i n (String.◌∷◌ c s) found in
            rw (found, find_all)
              (
                omega arith,
                omega arith,
                omega arith,
                lower (i + 1 + (n - 1)) (i + n) high _ (omega arith) (
                    find_all-Ascending r (n - 1) (some c) (i + 1) high s asks (omega arith)
                      (omega arith)),
              )
      ]

module _ (K : Characters) (type text : String) where
  abbrev finding : ℕ × ℕ → Finding
  finding m = finding_of K type text m

  Apart-Ascending :
      (high stop : ℕ) (f : Finding) (ms : List (ℕ × ℕ))
      → f.stop ≤ stop
      → Ascending K.is_word stop high ms
      → All (Apart f) (map finding ms)
  unfolding finding_of
  Apart-Ascending high stop f [] le h = tt
  Apart-Ascending high stop f (m ∷ ms) le (from, some_text, ends, rest) =
      (inl (omega arith), Apart-Ascending high (m.0 + m.1) f ms (omega arith) rest)

  findings-Within :
      (low : ℕ) (ms : List (ℕ × ℕ))
      → Ascending K.is_word low (len text) ms
      → All (Within (len text)) (map finding ms)
  unfolding finding_of
  findings-Within low [] h = tt
  findings-Within low (m ∷ ms) (from, some_text, ends, rest) =
      ((omega arith, ends), findings-Within (m.0 + m.1) ms rest)

  findings-AllApart :
      (low : ℕ) (ms : List (ℕ × ℕ))
      → Ascending K.is_word low (len text) ms
      → AllApart (map finding ms)
  unfolding finding_of
  findings-AllApart low [] h = tt
  findings-AllApart low (m ∷ ms) (from, some_text, ends, rest) = (
    Apart-Ascending (len text) (m.0 + m.1) (finding m) ms (omega arith) rest,
    findings-AllApart (m.0 + m.1) ms rest,
  )

  -- For a pattern without empty matches, the matches of it lie in the text and do not overlap, and
  -- redaction leaves out exactly the characters of the matches and puts a placeholder where each
  -- begins.
  pub detect_each-redacted :
      (r : Regex)
      → 0 < least r
      → let fs = detect_each K ((type, r) ∷ []) text in
        All (Within (len text)) fs × AllApart fs × (redact_pii text fs ≡ erased 0 text fs)
  unfolding detect_each
  detect_each-redacted r asks =
      let ms = find_all K.is_word r 0 none 0 text in
      let ascending =
        find_all-Ascending K.is_word r 0 none 0 (len text) text asks (omega arith) (omega arith) in
      let within = findings-Within 0 ms ascending in
      let apart = findings-AllApart 0 ms ascending in
      rw (List_append-nil (map finding ms)) (within, apart, redact_pii_lem text _ within apart)
