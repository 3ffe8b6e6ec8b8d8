-- ===== src/Prelude/Ascii.antt =====
-- Python's text methods, on ASCII: `lower`, `upper`, `strip`, `in`, `rstrip("/")`.
use Prim.Native.Nat.{ℕ, zero, suc, ◌-◌}
use Prim.Native.Char.{Char, code}
use Prim.Native.String.{String, [], ◌∷◌}
use mathlib.Core.Bool.{Bool, true, false, ◌&&◌, ◌||◌}
use mathlib.Core.Option.{none, some}
use text.Mathlib.Text.{find?}
use commandclaw_gateway.Prelude.Tests.{◌==◌, nat_eq, leb, if◌then◌else◌}

nth : String → ℕ → Char → Char
nth [] n d = d
nth (c ∷ s) zero d = c
nth (c ∷ s) (suc n) d = nth s n d

lower_char : Char → Char
unfolding nth
lower_char c =
    if leb b'A' (code c) && leb (code c) b'Z'
    then nth "abcdefghijklmnopqrstuvwxyz" (code c - b'A') c
    else c

-- `s.lower()`
unfoldable pub lower : String → String
unfolding lower_char
lower [] = []
lower (c ∷ s) = lower_char c ∷ lower s

upper_char : Char → Char
unfolding nth
upper_char c =
    if leb b'a' (code c) && leb (code c) b'z'
    then nth "ABCDEFGHIJKLMNOPQRSTUVWXYZ" (code c - b'a') c
    else c

-- `s.upper()`
unfoldable pub upper : String → String
unfolding upper_char
upper [] = []
upper (c ∷ s) = upper_char c ∷ upper s

-- `part in s`
unfoldable pub includes : String → String → Bool
includes part s = elim (find? s part) [ none ↦ false | some n ↦ true ]

abbrev is_space : Char → Bool
is_space c = nat_eq (code c) 32 || (leb 9 (code c) && leb (code c) 13)

lstrip : String → String
lstrip [] = []
lstrip (c ∷ s) = let rest = lstrip s in if is_space c then rest else c ∷ s

rstrip_by : (Char → Bool) → String → String
rstrip_by p [] = []
rstrip_by p (c ∷ s) = let rest = rstrip_by p s in if rest == "" && p c then "" else c ∷ rest

-- `s.strip()`
unfoldable pub strip : String → String
unfolding lstrip rstrip_by
strip s = rstrip_by is_space (lstrip s)

-- `s.rstrip("/")`
unfoldable pub rstrip_slash : String → String
unfolding rstrip_by
rstrip_slash s = rstrip_by (λ c. nat_eq (code c) b'/') s

-- `s[n:]`
unfoldable pub drop_chars : ℕ → String → String
drop_chars zero s = s
drop_chars (suc n) [] = []
drop_chars (suc n) (c ∷ s) = drop_chars n s
