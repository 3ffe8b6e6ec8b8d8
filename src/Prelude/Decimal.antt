-- ===== src/Prelude/Decimal.antt =====
-- Python's `str(n)` and `int(text)`. `int` is modelled on an optional `-` and decimal digits; other
-- texts are a ValueError (`none`). What it also accepts (a `+`, spaces, underscores) the gateway
-- never writes.
use Prim.Native.Nat.{ℕ, zero, suc, ◌+◌, ◌-◌, ◌*◌, ◌/◌, ◌%◌, ◌<◌}
use Prim.Native.Char.{Char, code}
use Prim.Native.String.{String, [], ◌∷◌}
use mathlib.Core.Path.{◌≡◌, refl, ap, ◌∙◌}
use mathlib.Core.Bool.{Bool, false, ◌&&◌}
use mathlib.Core.Option.{Option, none, some}
use mathlib.Core.Option
use mathlib.Core.Logic.{inl, inr}
use native.Mathlib.Omega.{arith}
use commandclaw_gateway.Prelude.Tests.{nat_eq, leb, ltb, if◌then◌else◌, Bool-cases}

-- `negsuc n` is -(n + 1).
pub data ℤ : Type 0 where
  pos : ℕ → ℤ
  negsuc : ℕ → ℤ

abbrev pub pos_part : ℤ → ℕ
pos_part (pos n) = n
pos_part (negsuc n) = 0

abbrev pub neg_part : ℤ → ℕ
neg_part (pos n) = 0
neg_part (negsuc n) = suc n

abbrev pub sub_ℕ : ℕ → ℕ → ℤ
sub_ℕ a b = if leb b a then pos (a - b) else negsuc (b - a - 1)

infixl 65 ◌+ℤ◌
unfoldable pub ◌+ℤ◌ : ℤ → ℤ → ℤ
a +ℤ b = sub_ℕ (pos_part a + pos_part b) (neg_part a + neg_part b)

abbrev pub ltb_ℤ : ℤ → ℤ → Bool
ltb_ℤ a b = ltb (pos_part a + neg_part b) (pos_part b + neg_part a)

-- `z > 0`
abbrev pub is_positive : ℤ → Bool
is_positive (pos n) = ltb 0 n
is_positive (negsuc n) = false

digit : ℕ → Char
digit zero = "0"
digit (suc zero) = "1"
digit (suc (suc zero)) = "2"
digit (suc (suc (suc zero))) = "3"
digit (suc (suc (suc (suc zero)))) = "4"
digit (suc (suc (suc (suc (suc zero))))) = "5"
digit (suc (suc (suc (suc (suc (suc zero)))))) = "6"
digit (suc (suc (suc (suc (suc (suc (suc zero))))))) = "7"
digit (suc (suc (suc (suc (suc (suc (suc (suc zero)))))))) = "8"
digit _ = "9"

code-digit : (d : ℕ) → d < 10 → code (digit d) ≡ 48 + d
unfolding digit
code-digit zero h = refl
code-digit (suc zero) h = refl
code-digit (suc (suc zero)) h = refl
code-digit (suc (suc (suc zero))) h = refl
code-digit (suc (suc (suc (suc zero)))) h = refl
code-digit (suc (suc (suc (suc (suc zero))))) h = refl
code-digit (suc (suc (suc (suc (suc (suc zero)))))) h = refl
code-digit (suc (suc (suc (suc (suc (suc (suc zero))))))) h = refl
code-digit (suc (suc (suc (suc (suc (suc (suc (suc zero)))))))) h = refl
code-digit (suc (suc (suc (suc (suc (suc (suc (suc (suc zero))))))))) h = refl
code-digit (suc (suc (suc (suc (suc (suc (suc (suc (suc (suc d)))))))))) h = absurd (omega arith)

-- The digits of `n` in front of `rest`; the fuel is more than `n`.
digits : ℕ → ℕ → String → String
digits zero n rest = rest
digits (suc f) n rest =
    let more = digits f (n / 10) (digit (n % 10) ∷ rest) in
    if leb 10 n then more else digit (n % 10) ∷ rest

unfoldable pub str : ℕ → String
unfolding digits digit
str n = digits (suc n) n []

read : ℕ → String → Option ℕ
read acc [] = some acc
read acc (c ∷ s) =
    let more = read (acc * 10 + (code c - 48)) s in
    if leb 48 (code c) && leb (code c) 57 then more else none

-- No digits are a ValueError.
read_digits : String → Option ℕ
unfolding read
read_digits [] = none
read_digits (c ∷ s) = read 0 (c ∷ s)

unfoldable pub int : String → Option ℤ
unfolding read_digits
int [] = none
int (c ∷ s) =
    if nat_eq (code c) b'-'
    then Option.map (λ n. if nat_eq n 0 then pos 0 else negsuc (n - 1)) (read_digits s)
    else Option.map pos (read_digits (c ∷ s))

-- `int(text)` where the text holds no sign, as limits do.
unfoldable pub nat : String → Option ℕ
unfolding read_digits
nat s = read_digits s

read-digit :
    (acc d : ℕ) (rest : String) → d < 10 → read acc (digit d ∷ rest) ≡ read (acc * 10 + d) rest
unfolding read
read-digit acc d rest h = ground (arith, code-digit d h)

read-digits : (f n : ℕ) (rest : String) → n < f → read 0 (digits f n rest) ≡ read n rest
unfolding digits
read-digits zero n rest h = absurd (omega arith)
read-digits (suc f) n rest h = elim (Bool-cases (leb 10 n)) [
  | inl more ↦ rw more (
      read-digits f (n / 10) (digit (n % 10) ∷ rest) (ground arith)
      ∙ read-digit (n / 10) (n % 10) rest (omega arith)
      ∙ ap (λ m. read m rest) (omega arith))
  | inr last ↦
      rw last (read-digit 0 (n % 10) rest (omega arith) ∙ ap (λ m. read m rest) (ground arith))
]

digits-cons :
    (f n : ℕ) (rest : String) → n < f → (c : Char) × (s : String) × (digits f n rest ≡ c ∷ s)
unfolding digits
digits-cons zero n rest h = absurd (omega arith)
digits-cons (suc f) n rest h = elim (Bool-cases (leb 10 n)) [
  | inl more ↦ rw more (digits-cons f (n / 10) (digit (n % 10) ∷ rest) (ground arith))
  | inr last ↦ rw last (digit (n % 10), rest, refl)
]

read_digits-cons :
    (t : String) (n : ℕ)
    → (c : Char) × (s : String) × (t ≡ c ∷ s)
    → read 0 t ≡ some n
    → read_digits t ≡ some n
unfolding read_digits
read_digits-cons [] n (c, s, e) h = cc
read_digits-cons (c ∷ s) n _ h = h

-- `int(str(n)) == n`
pub nat-str : (n : ℕ) → nat (str n) ≡ some n
unfolding nat str
nat-str n =
    read_digits-cons (digits (suc n) n []) n (digits-cons (suc n) n [] (omega arith))
      (read-digits (suc n) n [] (omega arith))
