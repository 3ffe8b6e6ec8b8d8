-- ===== src/Routes/Chat/Additions.antt =====
-- routes/chat.py: appending the fallback models that are not listed yet.
use mathlib.Core.List.{append_assoc}
use commandclaw_gateway.Prelude.{
  ℕ, ◌+◌, ◌≤◌, String, ◌≡◌, refl, sym, ◌∙◌, true, false, ◌||◌, List, [], ◌∷◌, ◌++◌, arith, length,
  contains, Bool-cases, inl, inr, eq_self, eq_iff,
}
use commandclaw_gateway.Routes.Chat.{additions}

-- How many of the fallbacks are not listed.
pub missing : List String → List String → ℕ
missing [] all = 0
missing (f ∷ fs) all = (elim (contains all f) [ true ↦ 0 | false ↦ 1 ]) + missing fs all

pub contains-append :
    (xs ys : List String) (s : String) → contains (xs ++ ys) s ≡ (contains xs s || contains ys s)
unfolding contains
contains-append [] ys s = refl
contains-append (x ∷ xs) ys s = ground (arith, contains-append xs ys s)

pub missing-append : (fs all more : List String) → missing fs (all ++ more) ≤ missing fs all
unfolding missing
missing-append [] all more = omega arith
missing-append (f ∷ fs) all more =
    ground (arith, contains-append all more f, missing-append fs all more)

pub missing-le : (fs all : List String) → missing fs all ≤ length fs
unfolding missing
missing-le [] all = omega arith
missing-le (f ∷ fs) all = ground (arith, missing-le fs all)

-- No more models are appended than were missing.
pub length-additions : (fs all : List String) → length (additions fs all) ≤ missing fs all
unfolding additions missing
length-additions [] all = omega arith
length-additions (f ∷ fs) all = ground (
  arith,
  length-additions fs all,
  length-additions fs (all ++ f ∷ []),
  missing-append fs all (f ∷ []),
)

additions_old :
    (f : String) (fs all : List String)
    → contains all f ≡ true
    → additions (f ∷ fs) all ≡ additions fs all
unfolding additions
additions_old f fs all h = rw (h, additions)

additions_grown :
    (f : String) (fs all : List String)
    → contains all f ≡ false
    → additions (f ∷ fs) all ≡ f ∷ additions fs (all ++ f ∷ [])
unfolding additions
additions_grown f fs all h = rw (h, additions)

contains-append_true :
    (all more : List String) (s : String) → contains all s ≡ true → contains (all ++ more) s ≡ true
contains-append_true all more s h = ground (arith, contains-append all more s)

-- Afterwards none of the fallbacks is missing.
pub missing-additions : (fs all : List String) → missing fs (all ++ additions fs all) ≡ 0
unfolding missing
missing-additions [] all = refl
missing-additions (f ∷ fs) all = elim (Bool-cases (contains all f)) [
  | inl old ↦
      let same : additions (f ∷ fs) all ≡ additions fs all = additions_old f fs all old in
      rw same (
        rw (contains-append_true all (additions fs all) f old)
          (ground (arith, missing-additions fs all)))
  | inr new ↦
      let grown : additions (f ∷ fs) all ≡ f ∷ additions fs (all ++ f ∷ []) =
        additions_grown f fs all new in
      let regroup : all ++ f ∷ additions fs (all ++ f ∷ [])
          ≡ (all ++ f ∷ []) ++ additions fs (all ++ f ∷ []) =
        sym (append_assoc all (f ∷ []) (additions fs (all ++ f ∷ []))) in
      let listed : contains (all ++ f ∷ []) f ≡ true =
        contains-append all (f ∷ []) f ∙ unfold contains in rw (new, eq_self f) in
      rw (grown, regroup)
        (rw (contains-append_true (all ++ f ∷ []) (additions fs (all ++ f ∷ [])) f listed)
          (ground (arith, missing-additions fs (all ++ f ∷ []))))
]

contains-cons_false :
    (f s : String) (all rest : List String)
    → contains all f ≡ false
    → contains all s ≡ true
    → contains rest s ≡ false
    → contains (f ∷ rest) s ≡ false
unfolding contains
contains-cons_false f s all rest new h k = ground (arith, eq_iff f s)

-- What is appended was not listed.
pub additions-new :
    (fs all : List String) (s : String)
    → contains all s ≡ true
    → contains (additions fs all) s ≡ false
additions-new [] all s h = unfold additions contains in refl
additions-new (f ∷ fs) all s h = elim (Bool-cases (contains all f)) [
  | inl old ↦ rw (additions_old f fs all old) (additions-new fs all s h)
  | inr new ↦ rw (additions_grown f fs all new) (
      contains-cons_false f s all _ new h
        (additions-new fs (all ++ f ∷ []) s (contains-append_true all (f ∷ []) s h)))
]
