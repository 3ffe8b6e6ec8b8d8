-- ===== src/Middleware/Detection/Slices.antt =====
-- Python's slices `s[:n]` and `s[n:]` of a text that consists of two parts.
use package.text.Mathlib.TextLemmas.{nil-append, cons-append}
use commandclaw_gateway.Prelude.{
  ℕ, zero, suc, ◌+◌, ◌≤◌, String, ◌≡◌, refl, sym, ap, ◌∙◌, ◌<>◌, arith, drop_chars,
}
use commandclaw_gateway.Middleware.Streaming.{take_chars}
use commandclaw_gateway.Middleware.Streaming.RoundTrip.{len}

pub len-append : (a b : String) → len (a <> b) ≡ len a + len b
len-append String.[] b = ap len (nil-append b) ∙ omega arith
len-append (String.◌∷◌ c a) b = ap len (cons-append c a b) ∙ omega (arith, len-append a b)

pub take_chars-append : (n : ℕ) (a b : String) → n ≤ len a → take_chars n (a <> b) ≡ take_chars n a
unfolding take_chars
take_chars-append zero a b h = refl
take_chars-append (suc n) String.[] b h = absurd (omega arith)
take_chars-append (suc n) (String.◌∷◌ c a) b h =
    ap (take_chars (suc n)) (cons-append c a b)
    ∙ ap (String.◌∷◌ c) (take_chars-append n a b (omega arith))

pub drop_chars-append :
    (n : ℕ) (a b : String) → n ≤ len a → drop_chars n (a <> b) ≡ drop_chars n a <> b
unfolding drop_chars
drop_chars-append zero a b h = refl
drop_chars-append (suc n) String.[] b h = absurd (omega arith)
drop_chars-append (suc n) (String.◌∷◌ c a) b h =
    ap (drop_chars (suc n)) (cons-append c a b) ∙ drop_chars-append n a b (omega arith)

pub len-take_chars : (n : ℕ) (s : String) → n ≤ len s → len (take_chars n s) ≡ n
unfolding take_chars
len-take_chars zero s h = refl
len-take_chars (suc n) String.[] h = absurd (omega arith)
len-take_chars (suc n) (String.◌∷◌ c s) h = ap suc (len-take_chars n s (omega arith))

pub len-drop_chars : (n : ℕ) (s : String) → n ≤ len s → len (drop_chars n s) + n ≡ len s
unfolding drop_chars
len-drop_chars zero s h = omega arith
len-drop_chars (suc n) String.[] h = absurd (omega arith)
len-drop_chars (suc n) (String.◌∷◌ c s) h =
    let rest = len-drop_chars n s (omega arith) in omega arith

drop_chars-nil : (n : ℕ) → drop_chars n String.[] ≡ String.[]
unfolding drop_chars
drop_chars-nil zero = refl
drop_chars-nil (suc n) = refl

suc-add : (n m : ℕ) → suc n + m ≡ suc (n + m)
suc-add n m = omega arith

pub drop-drop : (n m : ℕ) (s : String) → drop_chars m (drop_chars n s) ≡ drop_chars (n + m) s
unfolding drop_chars
drop-drop zero m s = ap (λ k. drop_chars k s) (omega arith)
drop-drop (suc n) m String.[] = drop_chars-nil m ∙ sym (drop_chars-nil (suc n + m))
drop-drop (suc n) m (String.◌∷◌ c s) =
    drop-drop n m s ∙ ap (λ k. drop_chars k (String.◌∷◌ c s)) (sym (suc-add n m))
