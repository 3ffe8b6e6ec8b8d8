-- ===== src/Floats.antt =====
-- Python's `float`: the type and the operations that the gateway uses, as an interface. The laws that
-- a theorem needs are its hypotheses.
pub mod Naturals
use commandclaw_gateway.Prelude.{ℕ, String, ◌≡◌, Bool, true, false, Option, some}

pub record Floats : Type 1 where
  pub Float : Type 0
  pub zero : Float
  pub inf : Float
  pub add : Float → Float → Float
  pub sub : Float → Float → Float
  -- `x * 2 ** n` and `x * n`
  pub scale : Float → ℕ → Float
  pub times : Float → ℕ → Float
  pub mul : Float → Float → Float
  pub div : Float → Float → Float
  pub of_nat : ℕ → Float
  -- `int(x)` of a value that is not negative
  pub floor : Float → ℕ
  -- `round(x, 8)`
  pub round_8 : Float → Float
  -- `a < b`
  pub lt : Float → Float → Bool
  -- `float(text)`, `none` for a ValueError, and `str(x)`
  pub parse : String → Option Float
  pub print : Float → String

-- `<` on values among which there is no NaN.
pub record IsOrdered (F : Floats) : Type 0 where
  pub lt_irrefl : (a : F.Float) → F.lt a a ≡ false
  pub lt_trans : (a b c : F.Float) → F.lt a b ≡ true → F.lt b c ≡ true → F.lt a c ≡ true

-- `float(str(x)) == x`
abbrev pub IsPrinted : Floats → Type 0
IsPrinted F = (a : F.Float) → F.parse (F.print a) ≡ some a
