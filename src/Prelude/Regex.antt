-- ===== src/Prelude/Regex.antt =====
-- Python's `re`, as far as the patterns of the guardrails go: a pattern's matches at a place are tried
-- in the order of the engine, the longest repetition first.
use Prim.Native.Nat.{ℕ, zero, suc, ◌+◌, ◌-◌}
use Prim.Native.Char.{Char}
use Prim.Native.String.{String}
use mathlib.Core.Bool.{Bool, true, false, not, ◌&&◌}
use mathlib.Core.Option.{Option, none, some}
use mathlib.Core.List.{List, [], ◌∷◌, ◌++◌}
use commandclaw_gateway.Prelude.Tests.{nat_eq, if◌then◌else◌}

pub data Regex : Type 0 where
  nothing : Regex
  boundary : Regex
  one : (Char → Bool) → Regex
  -- A class, at least so often, and at most so often where that is given.
  many : (Char → Bool) → ℕ → Option ℕ → Regex
  both : Regex → Regex → Regex
  either : Regex → Regex → Regex
  times : ℕ → Regex → Regex

abbrev pub row : List Regex → Regex
row [] = nothing
row (r ∷ []) = r
row (r ∷ q ∷ rs) = both r (row (q ∷ rs))

-- `(...)?`
abbrev pub perhaps : Regex → Regex
perhaps r = either r nothing

-- A place in a text: the character before it, its index, and the text from there on.
pub record Place : Type 0 where
  pub before : Option Char
  pub index : ℕ
  pub rest : String

abbrev pub may_repeat : Option ℕ → Bool
may_repeat none = true
may_repeat (some n) = not (nat_eq n 0)

abbrev pub fewer : Option ℕ → Option ℕ
fewer none = none
fewer (some n) = some (n - 1)

-- The places that a greedy repetition of a class can lead to.
unfoldable pub repeated : (Char → Bool) → ℕ → Option ℕ → Option Char → ℕ → String → List Place
repeated p least most before i String.[] =
    if nat_eq least 0 then record { before = before; index = i; rest = String.[] } ∷ [] else []
repeated p least most before i (String.◌∷◌ c s) =
    let longer = repeated p (least - 1) (fewer most) (some c) (i + 1) s in
    let here : Place = record { before = before; index = i; rest = String.◌∷◌ c s } in
    (if p c && may_repeat most then longer else []) ++ (if nat_eq least 0 then here ∷ [] else [])

unfoldable pub each : (Place → List Place) → List Place → List Place
each f [] = []
each f (p ∷ ps) = f p ++ each f ps

unfoldable pub iterate : ℕ → (Place → List Place) → Place → List Place
unfolding each
iterate zero f p = p ∷ []
iterate (suc n) f p = each (iterate n f) (f p)

unfoldable pub step : (Char → Bool) → ℕ → String → List Place
step q i String.[] = []
step q i (String.◌∷◌ c s) =
    if q c then record { before = some c; index = i + 1; rest = s } ∷ [] else []

unfoldable pub differ : Bool → Bool → Bool
differ true b = not b
differ false b = b

module _ (is_word : Char → Bool) where
  abbrev pub after_word : Option Char → Bool
  after_word none = false
  after_word (some c) = is_word c

  unfoldable pub before_word : String → Bool
  before_word String.[] = false
  before_word (String.◌∷◌ c s) = is_word c

  -- The places that a pattern leads to, the one that the engine prefers first.
  unfoldable pub run : Regex → Place → List Place
  unfolding repeated each iterate step differ before_word
  run nothing p = p ∷ []
  run boundary p = if differ (after_word p.before) (before_word p.rest) then p ∷ [] else []
  run (one q) p = step q p.index p.rest
  run (many q least most) p = repeated q least most p.before p.index p.rest
  run (both r s) p = each (run s) (run r p)
  run (either r s) p = run r p ++ run s p
  run (times n r) p = iterate n (run r) p

  -- The length of the match at a place, if there is one.
  unfoldable pub match : Regex → Option Char → ℕ → String → Option ℕ
  unfolding run
  match r before i s = elim (run r (record { before = before; index = i; rest = s })) [
    | [] ↦ none
    | p ∷ ps ↦ some (p.index - i)
  ]

  -- `pattern.search(text)`, from a place on
  unfoldable pub search : Regex → Option Char → ℕ → String → Bool
  unfolding match
  search r before i String.[] = elim (match r before i String.[]) [ none ↦ false | some n ↦ true ]
  search r before i (String.◌∷◌ c s) =
      let later = search r (some c) (i + 1) s in
      elim (match r before i (String.◌∷◌ c s)) [ none ↦ later | some n ↦ true ]

  -- `pattern.finditer(text)`: the start and the length of each match, for a pattern without empty
  -- matches. The next `skip` characters belong to the last match.
  unfoldable pub find_all : Regex → ℕ → Option Char → ℕ → String → List (ℕ × ℕ)
  unfolding match
  find_all r skip before i String.[] = []
  find_all r (suc skip) before i (String.◌∷◌ c s) = find_all r skip (some c) (i + 1) s
  find_all r zero before i (String.◌∷◌ c s) = elim (match r before i (String.◌∷◌ c s)) [
    | none ↦ find_all r 0 (some c) (i + 1) s
    | some n ↦ (i, n) ∷ find_all r (n - 1) (some c) (i + 1) s
  ]
