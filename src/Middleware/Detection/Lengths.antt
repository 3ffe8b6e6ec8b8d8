-- ===== src/Middleware/Detection/Lengths.antt =====
-- Prelude.Regex: a match is as long as its pattern asks for at the least, and ends in the text.
use commandclaw_gateway.Prelude.{
  ℕ, zero, suc, ◌+◌, ◌-◌, ◌≤◌, min, String, ◌≡◌, refl, ◌∙◌, inl, inr, Bool, true, false, ◌&&◌,
  Option, none, some, List, [], ◌∷◌, ◌++◌, arith, nat_eq, if◌then◌else◌, All, Bool-cases,
}
use Prim.Native.Char.{Char}
use commandclaw_gateway.Prelude.Regex.{
  Regex, nothing, boundary, one, many, both, either, times, Place, repeated, each, iterate, step,
  differ, after_word, before_word, may_repeat, fewer, run, match,
}
use commandclaw_gateway.Middleware.Streaming.RoundTrip.{len}

abbrev sum_of : ℕ → ℕ → ℕ
sum_of zero k = 0
sum_of (suc n) k = k + sum_of n k

-- The least length of a match.
abbrev pub least : Regex → ℕ
least nothing = 0
least boundary = 0
least (one p) = 1
least (many p n m) = n
least (both r s) = least r + least s
least (either r s) = min (least r) (least s)
least (times n r) = sum_of n (least r)

-- A place at least `k` characters on, in the same text.
record Ahead (k : ℕ) (p q : Place) : Type 0 where
  on : p.index + k ≤ q.index
  same : q.index + len q.rest ≡ p.index + len p.rest

All-append : (P : Place → Type 0) (ps qs : List Place) → All P ps → All P qs → All P (ps ++ qs)
All-append P [] qs hs ks = ks
All-append P (p ∷ ps) qs (h, hs) ks = (h, All-append P ps qs hs ks)

All-if : (P : Place → Type 0) (b : Bool) (ps : List Place) → All P ps → All P (if b then ps else [])
All-if P true ps hs = hs
All-if P false ps hs = tt

-- `f` goes at least `k` characters on, from wherever it starts.
Advances : ℕ → (Place → List Place) → Type 0
Advances k f = (p : Place) → All (Ahead k p) (f p)

weaker : (k j : ℕ) (p : Place) (qs : List Place) → j ≤ k → All (Ahead k p) qs → All (Ahead j p) qs
weaker k j p [] le hs = tt
weaker k j p (q ∷ qs) le (h, hs) =
    (record { on = (let g = h.on in omega arith); same = h.same }, weaker k j p qs le hs)

from_there :
    (k j : ℕ) (p q : Place) (rs : List Place)
    → Ahead k p q
    → All (Ahead j q) rs
    → All (Ahead (k + j) p) rs
from_there k j p q [] h hs = tt
from_there k j p q (r ∷ rs) h (g, gs) = (
  record { on = (let a = h.on in let b = g.on in omega arith); same = g.same ∙ h.same },
  from_there k j p q rs h gs,
)

All-each :
    (k j : ℕ) (f : Place → List Place) (p : Place) (qs : List Place)
    → Advances j f
    → All (Ahead k p) qs
    → All (Ahead (k + j) p) (each f qs)
unfolding each Advances
All-each k j f p [] adv hs = tt
All-each k j f p (q ∷ qs) adv (h, hs) =
    All-append _ (f q) (each f qs) (from_there k j p q (f q) h (adv q)) (All-each k j f p qs adv hs)

here : (p : Place) → Ahead 0 p p
here p = record { on = omega arith; same = refl }

iterate-Advances :
    (n k : ℕ) (f : Place → List Place) → Advances k f → Advances (sum_of n k) (iterate n f)
unfolding iterate Advances
iterate-Advances zero k f adv p = (here p, tt)
iterate-Advances (suc n) k f adv p =
    All-each k (sum_of n k) (iterate n f) p (f p) (iterate-Advances n k f adv) (adv p)

repeated-Advances :
    (q : Char → Bool) (n : ℕ) (m : Option ℕ) (before : Option Char) (i : ℕ) (s : String)
    → All (Ahead n (record { before = before; index = i; rest = s })) (repeated q n m before i s)
unfolding repeated
repeated-Advances q n m before i String.[] = elim (Bool-cases (nat_eq n 0)) [
  | inl none_left ↦
      let e : n ≡ 0 = ground arith in rw none_left (record { on = ground arith; same = refl }, tt)
  | inr more ↦ rw more tt
]
repeated-Advances q n m before i (String.◌∷◌ c s) =
    let p : Place = record { before = before; index = i; rest = String.◌∷◌ c s } in
    let p' : Place = record { before = some c; index = i + 1; rest = s } in
    let next : Ahead 1 p p' = record { on = omega arith; same = omega arith } in
    let longer = weaker (1 + (n - 1)) n p _ (omega arith) (
      from_there 1 (n - 1) p p' _ next
        (repeated-Advances q (n - 1) (fewer m) (some c) (i + 1) s)) in
    All-append (Ahead n p) _ _ (All-if (Ahead n p) (q c && may_repeat m) _ longer)
      (elim (Bool-cases (nat_eq n 0)) [
        | inl none_left ↦ rw none_left (record { on = ground arith; same = refl }, tt)
        | inr more ↦ rw more tt
      ])

step-Advances :
    (q : Char → Bool) (before : Option Char) (i : ℕ) (s : String)
    → All (Ahead 1 (record { before = before; index = i; rest = s })) (step q i s)
unfolding step
step-Advances q before i String.[] = tt
step-Advances q before i (String.◌∷◌ c s) =
    All-if _ (q c) _ (record { on = omega arith; same = omega arith }, tt)

module _ (is_word : Char → Bool) where
  run-Advances : (r : Regex) → Advances (least r) (run is_word r)
  unfolding run Advances
  run-Advances nothing p = (here p, tt)
  run-Advances boundary p =
      All-if (Ahead 0 p) (differ (after_word is_word p.before) (before_word is_word p.rest))
        (p ∷ []) (here p, tt)
  run-Advances (one q) p = step-Advances q p.before p.index p.rest
  run-Advances (many q n m) p = repeated-Advances q n m p.before p.index p.rest
  run-Advances (both r s) p =
      All-each (least r) (least s) (run is_word s) p (run is_word r p) (run-Advances s)
        (run-Advances r p)
  run-Advances (either r s) p =
      All-append _ _ _
        (weaker (least r) (min (least r) (least s)) p _ (omega arith) (run-Advances r p))
        (weaker (least s) (min (least r) (least s)) p _ (omega arith) (run-Advances s p))
  run-Advances (times n r) p = iterate-Advances n (least r) (run is_word r) (run-Advances r) p

  -- A match is at least as long as its pattern asks for, and ends in the text.
  pub match-length :
      (r : Regex) (before : Option Char) (i n : ℕ) (s : String)
      → match is_word r before i s ≡ some n
      → (least r ≤ n) × (n ≤ len s)
  unfolding match Advances
  match-length r before i n s e =
      let p : Place = record { before = before; index = i; rest = s } in
      go (run is_word r p) (run-Advances r p) e
    where
      go :
          (qs : List Place)
          → All (Ahead (least r) (record { before = before; index = i; rest = s })) qs
          → elim qs [ [] ↦ none | q ∷ ps ↦ some (q.index - i) ] ≡ some n
          → (least r ≤ n) × (n ≤ len s)
      go [] hs e = cc
      go (q ∷ qs) (h, hs) e =
          let length : q.index - i ≡ n = cc in
          let on = h.on in let same = h.same in (omega arith, omega arith)
