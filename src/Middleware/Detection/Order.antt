-- ===== src/Middleware/Detection/Order.antt =====
-- middleware/guardrails.py `_redact_pii`: the order in which the findings are replaced.
use commandclaw_gateway.Prelude.{
  ℕ, ◌+◌, ◌≤◌, ◌<◌, String, ◌≡◌, refl, ◌∙◌, ◌⊎◌, inl, inr, false, List, [], ◌∷◌, arith, leb, nat_eq,
  All, Bool-cases,
}
use commandclaw_gateway.Middleware.Detection.{Finding, insert_finding, from_last}
use commandclaw_gateway.Middleware.Detection.Erased.{inside, opening, erased, Falling}

-- Two findings that do not overlap.
abbrev pub Apart : Finding → Finding → Type 0
Apart f g = (f.stop ≤ g.start) ⊎ (g.stop ≤ f.start)

abbrev pub AllApart : List Finding → Type 0
AllApart [] = Unit
AllApart (f ∷ fs) = All (Apart f) fs × AllApart fs

-- A finding of at least one character of a text of length `n`.
abbrev pub Within : ℕ → Finding → Type 0
Within n f = (f.start < f.stop) × (f.stop ≤ n)

pub All-insert_finding :
    (P : Finding → Type 0) (f : Finding) (gs : List Finding)
    → P f
    → All P gs
    → All P (insert_finding f gs)
unfolding insert_finding
All-insert_finding P f [] h hs = (h, tt)
All-insert_finding P f (g ∷ gs) h (h', hs) = elim (Bool-cases (leb g.start f.start)) [
  | inl first ↦ rw first (h, (h', hs))
  | inr later ↦ rw later (h', All-insert_finding P f gs h hs)
]

All-from_last : (P : Finding → Type 0) (fs : List Finding) → All P fs → All P (from_last fs)
unfolding from_last
All-from_last P [] hs = tt
All-from_last P (f ∷ fs) (h, hs) = All-insert_finding P f (from_last fs) h (All-from_last P fs hs)

insert_finding-Falling :
    (n : ℕ) (f : Finding) (gs : List Finding)
    → Within n f
    → Falling n gs
    → All (Apart f) gs
    → Falling n (insert_finding f gs)
unfolding insert_finding
insert_finding-Falling n f [] (some_text, ends) falling apart = (some_text, ends, tt)
insert_finding-Falling n f (g ∷ gs) (some_text, ends) (g_text, g_ends, falling) (away, apart) =
    elim (Bool-cases (leb g.start f.start)) [
      | inl first ↦
          let order : g.stop ≤ f.start = elim away [ inl h ↦ absurd (ground arith) | inr h ↦ h ] in
          rw first (some_text, ends, (g_text, order, falling))
      | inr later ↦
          let order : f.stop ≤ g.start = elim away [ inl h ↦ h | inr h ↦ absurd (ground arith) ] in
          rw later
            (g_text, g_ends, insert_finding-Falling g.start f gs (some_text, order) falling apart)
    ]

pub from_last-Falling :
    (n : ℕ) (fs : List Finding) → All (Within n) fs → AllApart fs → Falling n (from_last fs)
unfolding from_last
from_last-Falling n [] within apart = tt
from_last-Falling n (f ∷ fs) (h, within) (away, apart) =
    insert_finding-Falling n f (from_last fs) h (from_last-Falling n fs within apart)
      (All-from_last (Apart f) fs away)

opening-insert_finding :
    (i : ℕ) (f : Finding) (gs : List Finding) → opening i (insert_finding f gs) ≡ opening i (f ∷ gs)
unfolding insert_finding
opening-insert_finding i f [] = refl
opening-insert_finding i f (g ∷ gs) = elim (Bool-cases (leb g.start f.start)) [
  | inl first ↦ rw first refl
  | inr later ↦
      rw (later, opening-insert_finding i f gs)
        (elim (Bool-cases (nat_eq f.start i)) [
          | inl here ↦ let other : nat_eq g.start i ≡ false = ground arith in rw (here, other) refl
          | inr elsewhere ↦ rw elsewhere refl
        ])
]

inside-insert_finding :
    (i : ℕ) (f : Finding) (gs : List Finding) → inside i (insert_finding f gs) ≡ inside i (f ∷ gs)
unfolding insert_finding
inside-insert_finding i f [] = refl
inside-insert_finding i f (g ∷ gs) = elim (Bool-cases (leb g.start f.start)) [
  | inl first ↦ rw first refl
  | inr later ↦ rw (later, inside-insert_finding i f gs) (ground arith)
]

places-from_last :
    (i : ℕ) (fs : List Finding)
    → (opening i (from_last fs) ≡ opening i fs) × (inside i (from_last fs) ≡ inside i fs)
unfolding from_last
places-from_last i [] = (refl, refl)
places-from_last i (f ∷ fs) =
    let (opens, lies) = places-from_last i fs in
    (
      opening-insert_finding i f (from_last fs) ∙ rw opens refl,
      inside-insert_finding i f (from_last fs) ∙ rw lies refl,
    )

pub erased-from_last :
    (i : ℕ) (s : String) (fs : List Finding) → erased i s (from_last fs) ≡ erased i s fs
erased-from_last i String.[] fs = refl
erased-from_last i (String.◌∷◌ c s) fs =
    let (opens, lies) = places-from_last i fs in
    rw (opens, lies, erased-from_last (i + 1) s fs) refl
