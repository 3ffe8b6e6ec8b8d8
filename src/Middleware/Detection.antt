-- ===== src/Middleware/Detection.antt =====
-- middleware/guardrails.py: what the built-in patterns find in a text, and its redaction.
pub mod Slices
pub mod Erased
pub mod Order
pub mod Lengths
pub mod Redaction
pub mod Matches
use Prim.Native.Char.{Char, code}
use commandclaw_gateway.Prelude.{
  ℕ, zero, suc, ◌+◌, ◌-◌, String, Bool, true, false, not, ◌&&◌, ◌||◌, Option, none, some, List, [],
  ◌∷◌, ◌++◌, nat_eq, leb, if◌then◌else◌, map, ◌<>◌, drop_chars, upper,
}
use commandclaw_gateway.Prelude.Regex.{
  Regex, nothing, boundary, one, many, both, either, times, row, perhaps, search, find_all,
}
use commandclaw_gateway.Middleware.Streaming.{take_chars}
use commandclaw_gateway.Middleware.Patterns.{Characters, pii_patterns, injection_patterns}

-- A match of a pattern: `text` is the matched part.
pub record Finding : Type 0 where
  pub type : String
  pub start : ℕ
  pub stop : ℕ
  pub text : String

module _ (K : Characters) where
  finding_of : String → String → ℕ × ℕ → Finding
  unfolding take_chars drop_chars
  finding_of type text (start, length) = record {
    type = type;
    start = start;
    stop = start + length;
    text = take_chars length (drop_chars start text);
  }

  unfoldable pub detect_each : List (String × Regex) → String → List Finding
  unfolding find_all finding_of
  detect_each [] text = []
  detect_each ((type, r) ∷ patterns) text =
      map (finding_of type text) (find_all K.is_word r 0 none 0 text) ++ detect_each patterns text

  unfoldable pub detect_pii_builtin : String → List Finding
  unfolding detect_each pii_patterns
  detect_pii_builtin text = detect_each (pii_patterns K) text

  found : List (String × Regex) → String → List String
  unfolding search
  found [] text = []
  found ((pattern, r) ∷ patterns) text =
      let rest = found patterns text in
      if search K.is_word r none 0 text then pattern ∷ rest else rest

  unfoldable pub detect_injection : String → List String
  unfolding found injection_patterns
  detect_injection text = found (injection_patterns K) text

-- `sorted(findings, key=lambda f: f["start"], reverse=True)`, which keeps the order of equal starts.
unfoldable pub insert_finding : Finding → List Finding → List Finding
insert_finding f [] = f ∷ []
insert_finding f (g ∷ gs) =
    let rest = insert_finding f gs in if leb g.start f.start then f ∷ g ∷ gs else g ∷ rest

unfoldable pub from_last : List Finding → List Finding
unfolding insert_finding
from_last [] = []
from_last (f ∷ fs) = insert_finding f (from_last fs)

unfoldable pub placeholder : Finding → String
unfolding upper
placeholder f = "[" <> upper f.type <> "_REDACTED]"

unfoldable pub replace : String → List Finding → String
unfolding take_chars drop_chars placeholder
replace result [] = result
replace result (f ∷ fs) =
    replace (take_chars f.start result <> placeholder f <> drop_chars f.stop result) fs

unfoldable pub redact_pii : String → List Finding → String
unfolding from_last replace
redact_pii text findings = replace text (from_last findings)
