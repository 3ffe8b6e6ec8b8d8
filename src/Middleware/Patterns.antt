-- ===== src/Middleware/Patterns.antt =====
-- middleware/guardrails.py: the built-in patterns for personal data and for injected prompts. What
-- counts as a digit, a space, a letter of a word or the same letter to `re` is a parameter.
use Prim.Native.Char.{Char, code}
use commandclaw_gateway.Prelude.{
  ℕ, String, Bool, false, not, ◌&&◌, ◌||◌, none, some, List, [], ◌∷◌, nat_eq, leb,
}
use commandclaw_gateway.Prelude.Regex.{
  Regex, nothing, boundary, one, many, both, either, times, row, perhaps,
}

pub record Characters : Type 0 where
  pub is_digit : Char → Bool
  pub is_space : Char → Bool
  pub is_word : Char → Bool
  pub same : Char → Char → Bool

one_of : String → Char → Bool
one_of String.[] c = false
one_of (String.◌∷◌ d s) c = nat_eq (code d) (code c) || one_of s c

between : ℕ → ℕ → Char → Bool
between low high c = leb low (code c) && leb (code c) high

is_letter : Char → Bool
unfolding between
is_letter c = between b'A' b'Z' c || between b'a' b'z' c

is_alphanumeric : Char → Bool
unfolding is_letter between
is_alphanumeric c = is_letter c || between b'0' b'9' c

char : String → Regex
unfolding one_of
char s = one (one_of s)

module _ (K : Characters) where
  digit_run : ℕ → Regex
  digit_run n = many K.is_digit n (some n)

  -- The characters of the class, or a space
  with_space : String → Char → Bool
  unfolding one_of
  with_space s c = one_of s c || K.is_space c

  -- `\b[A-Za-z0-9._%+-]+@[A-Za-z0-9.-]+\.[A-Z|a-z]{2,}\b`
  unfoldable pub email : Regex
  unfolding is_alphanumeric is_letter one_of char
  email = row (
      boundary
      ∷ many (λ c. is_alphanumeric c || one_of "._%+-" c) 1 none
      ∷ char "@"
      ∷ many (λ c. is_alphanumeric c || one_of ".-" c) 1 none
      ∷ char "."
      ∷ many (λ c. is_letter c || one_of "|" c) 2 none
      ∷ boundary
      ∷ [])

  -- `\b(?:\+?1[-.\s]?)?\(?\d{3}\)?[-.\s]?\d{3}[-.\s]?\d{4}\b`
  unfoldable pub phone : Regex
  unfolding char digit_run with_space
  phone =
      let separator = perhaps (one (with_space "-.")) in
      row (
        boundary
        ∷ perhaps (row (perhaps (char "+") ∷ char "1" ∷ separator ∷ []))
        ∷ perhaps (char "(")
        ∷ digit_run 3
        ∷ perhaps (char ")")
        ∷ separator
        ∷ digit_run 3
        ∷ separator
        ∷ digit_run 4
        ∷ boundary
        ∷ [])

  -- `\b\d{3}-\d{2}-\d{4}\b`
  unfoldable pub ssn : Regex
  unfolding char digit_run
  ssn =
      row (boundary ∷ digit_run 3 ∷ char "-" ∷ digit_run 2 ∷ char "-" ∷ digit_run 4 ∷ boundary ∷ [])

  -- `\b(?:\d{4}[-\s]?){3}\d{4}\b`
  unfoldable pub credit_card : Regex
  unfolding digit_run with_space
  credit_card = row (
      boundary
      ∷ times 3 (both (digit_run 4) (perhaps (one (with_space "-"))))
      ∷ digit_run 4
      ∷ boundary
      ∷ [])

  -- `\b(?:\d{1,3}\.){3}\d{1,3}\b`
  unfoldable pub ip_address : Regex
  unfolding char
  ip_address =
      let part = many K.is_digit 1 (some 3) in
      row (boundary ∷ times 3 (both part (char ".")) ∷ part ∷ boundary ∷ [])

  -- `_PII_PATTERNS`
  unfoldable pub pii_patterns : List (String × Regex)
  unfolding email phone ssn credit_card ip_address
  pii_patterns =
      ("email", email)
      ∷ ("phone", phone)
      ∷ ("ssn", ssn)
      ∷ ("credit_card", credit_card)
      ∷ ("ip_address", ip_address)
      ∷ []

  -- A text that `re.I` matches whatever its case
  any_case : String → Regex
  any_case String.[] = nothing
  any_case (String.◌∷◌ c s) = both (one (K.same c)) (any_case s)

  spaces : Regex
  spaces = many K.is_space 1 none

  -- `\s*`
  any_spaces : Regex
  any_spaces = many K.is_space 0 none

  -- `(all\s+)?`
  maybe_all : Regex
  unfolding any_case spaces
  maybe_all = perhaps (both (any_case "all") spaces)

  -- `(a|b|c)`
  choice : String → List String → Regex
  unfolding any_case
  choice a [] = any_case a
  choice a (b ∷ cs) = either (any_case a) (choice b cs)

  -- `_INJECTION_PATTERNS`, each with its `pattern`
  unfoldable pub injection_patterns : List (String × Regex)
  unfolding any_case spaces any_spaces maybe_all choice
  injection_patterns =
      (
        "ignore\\s+(all\\s+)?previous\\s+instructions",
        row (
            any_case "ignore"
            ∷ spaces
            ∷ maybe_all
            ∷ any_case "previous"
            ∷ spaces
            ∷ any_case "instructions"
            ∷ []),
      )
      ∷ (
        "ignore\\s+(all\\s+)?(above|prior)\\s+(instructions|prompts|rules)",
        row (
            any_case "ignore"
            ∷ spaces
            ∷ maybe_all
            ∷ choice "above" ("prior" ∷ [])
            ∷ spaces
            ∷ choice "instructions" ("prompts" ∷ "rules" ∷ [])
            ∷ []),
      )
      ∷ (
        "you\\s+are\\s+now\\s+(a|an)",
        row (
            any_case "you"
            ∷ spaces
            ∷ any_case "are"
            ∷ spaces
            ∷ any_case "now"
            ∷ spaces
            ∷ choice "a" ("an" ∷ [])
            ∷ []),
      )
      ∷ (
        "disregard\\s+(all\\s+)?(previous|prior|above)",
        row (
            any_case "disregard"
            ∷ spaces
            ∷ maybe_all
            ∷ choice "previous" ("prior" ∷ "above" ∷ [])
            ∷ []),
      )
      ∷ (
        "forget\\s+(all\\s+)?(previous|prior|above)",
        row (
            any_case "forget"
            ∷ spaces
            ∷ maybe_all
            ∷ choice "previous" ("prior" ∷ "above" ∷ [])
            ∷ []),
      )
      ∷ (
        "new\\s+instructions?\\s*:",
        row (
            any_case "new"
            ∷ spaces
            ∷ any_case "instruction"
            ∷ perhaps (any_case "s")
            ∷ any_spaces
            ∷ any_case ":"
            ∷ []),
      )
      ∷ (
        "system\\s*:\\s*you\\s+are",
        row (
            any_case "system"
            ∷ any_spaces
            ∷ any_case ":"
            ∷ any_spaces
            ∷ any_case "you"
            ∷ spaces
            ∷ any_case "are"
            ∷ []),
      )
      ∷ ("<\\|im_start\\|>system", any_case "<|im_start|>system")
      ∷ (
        "\\[INST\\].*\\[/INST\\]",
        row (
            any_case "[INST]"
            ∷ many (λ c. not (nat_eq (code c) 10)) 0 none
            ∷ any_case "[/INST]"
            ∷ []),
      )
      ∷ []
