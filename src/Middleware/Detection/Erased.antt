-- ===== src/Middleware/Detection/Erased.antt =====
-- middleware/guardrails.py: a text without the characters inside of findings, read once.
use package.text.Mathlib.TextLemmas.{append-nil, append_assoc, nil-append, cons-append}
use commandclaw_gateway.Prelude.{
  ℕ, suc, ◌+◌, ◌≤◌, ◌<◌, String, ◌≡◌, refl, sym, ap, ◌∙◌, inl, inr, Bool, true, false, ◌&&◌, ◌||◌,
  List, [], ◌∷◌, ◌<>◌, arith, ltb, leb, nat_eq, if◌then◌else◌, Bool-cases,
}
use commandclaw_gateway.Middleware.Streaming.RoundTrip.{len}
use commandclaw_gateway.Middleware.Detection.{Finding, placeholder}

-- Is the character at a place inside of a finding, and which placeholders begin there?
abbrev pub inside : ℕ → List Finding → Bool
inside i [] = false
inside i (f ∷ fs) = (leb f.start i && ltb i f.stop) || inside i fs

abbrev pub opening : ℕ → List Finding → String
opening i [] = ""
opening i (f ∷ fs) = if nat_eq f.start i then placeholder f <> opening i fs else opening i fs

-- The text from the place `i` on, read once: what is inside of a finding is left out, and its
-- placeholder stands where it begins.
abbrev pub erased : ℕ → String → List Finding → String
erased i String.[] fs = ""
erased i (String.◌∷◌ c s) fs =
    let rest = erased (i + 1) s fs in
    opening i fs <> (if inside i fs then rest else String.◌∷◌ c rest)

-- Findings from the last to the first, all within the first `n` characters.
abbrev pub Falling : ℕ → List Finding → Type 0
Falling n [] = Unit
Falling n (g ∷ gs) = (g.start < g.stop) × (g.stop ≤ n) × Falling g.start gs

-- Nothing begins or lies behind them.
behind :
    (n i : ℕ) (gs : List Finding)
    → Falling n gs
    → n ≤ i
    → (opening i gs ≡ "") × (inside i gs ≡ false)
behind n i [] h le = (refl, refl)
behind n i (g ∷ gs) (some_text, within, falling) le =
    let (none_open, none_inside) = behind g.start i gs falling (omega arith) in
    let late : nat_eq g.start i ≡ false = ground arith in
    let over : ltb i g.stop ≡ false = ground arith in
    (rw (late, none_open) refl, rw (over, none_inside) (ground arith))

pub erased-behind :
    (n i : ℕ) (s : String) (gs : List Finding) → Falling n gs → n ≤ i → erased i s gs ≡ s
erased-behind n i String.[] gs h le = refl
erased-behind n i (String.◌∷◌ c s) gs h le =
    let (none_open, none_inside) = behind n i gs h le in
    rw (none_open, none_inside)
      (nil-append _ ∙ ap (String.◌∷◌ c) (erased-behind n (i + 1) s gs h (omega arith)))

-- A finding that begins behind a text does not matter to it.
erased-before :
    (i : ℕ) (s : String) (g : Finding) (gs : List Finding)
    → i + len s ≤ g.start
    → erased i s (g ∷ gs) ≡ erased i s gs
erased-before i String.[] g gs h = refl
erased-before i (String.◌∷◌ c s) g gs h =
    let early : nat_eq g.start i ≡ false = ground arith in
    let out : leb g.start i ≡ false = ground arith in
    rw (early, out, erased-before (i + 1) s g gs (omega arith)) refl

-- The text of a finding, behind its first character, is left out.
erased-within :
    (i : ℕ) (s : String) (g : Finding) (gs : List Finding)
    → Falling g.start gs
    → g.start < i
    → i + len s ≤ g.stop
    → erased i s (g ∷ gs) ≡ ""
erased-within i String.[] g gs falling above below = refl
erased-within i (String.◌∷◌ c s) g gs falling above below =
    let (none_open, _) = behind g.start i gs falling (omega arith) in
    let late : nat_eq g.start i ≡ false = ground arith in
    let over : leb g.start i ≡ true = ground arith in
    let under : ltb i g.stop ≡ true = ground arith in
    rw (late, over, under, none_open)
      (nil-append _ ∙ erased-within (i + 1) s g gs falling (omega arith) (omega arith))

erased-at :
    (s : String) (g : Finding) (gs : List Finding)
    → Falling g.start gs
    → g.start < g.stop
    → g.start + len s ≡ g.stop
    → erased g.start s (g ∷ gs) ≡ placeholder g
erased-at String.[] g gs falling some_text full = absurd (omega arith)
erased-at (String.◌∷◌ c s) g gs falling some_text full =
    let (none_open, _) = behind g.start g.start gs falling (omega arith) in
    let here : nat_eq g.start g.start ≡ true = ground arith in
    let over : leb g.start g.start ≡ true = ground arith in
    let under : ltb g.start g.stop ≡ true = ground arith in
    rw (here, over, under, none_open)
      (ap (λ t. (placeholder g <> "") <> t)
          (erased-within (g.start + 1) s g gs falling (omega arith) (omega arith))
        ∙ append-nil _
        ∙ append-nil (placeholder g))

erased-append :
    (i : ℕ) (a b : String) (fs : List Finding)
    → erased i (a <> b) fs ≡ erased i a fs <> erased (i + len a) b fs
erased-append i String.[] b fs =
    ap (λ t. erased i t fs) (nil-append b)
    ∙ ap (λ k. erased k b fs) (omega arith)
    ∙ sym (nil-append (erased (i + 0) b fs))
erased-append i (String.◌∷◌ c a) b fs =
    let tail : erased (i + 1) (a <> b) fs ≡ erased (i + 1) a fs <> erased (i + suc (len a)) b fs =
      erased-append (i + 1) a b fs ∙ ap (λ k. erased (i + 1) a fs <> erased k b fs) (omega arith) in
    ap (λ t. erased i t fs) (cons-append c a b) ∙ (elim (Bool-cases (inside i fs)) [
      | inl within ↦
          rw (within, tail)
            (sym
              (append_assoc (opening i fs) (erased (i + 1) a fs) (erased (i + suc (len a)) b fs)))
      | inr without ↦
          rw (without, tail)
            (ap (λ t. opening i fs <> t) (sym (cons-append c (erased (i + 1) a fs) _))
              ∙ sym (append_assoc (opening i fs) _ (erased (i + suc (len a)) b fs)))
    ])

-- The three parts of a text around a finding.
pub erased-parts :
    (a m c : String) (g : Finding) (gs : List Finding)
    → Falling g.start gs
    → g.start < g.stop
    → len a ≡ g.start
    → g.start + len m ≡ g.stop
    → erased 0 (a <> m <> c) (g ∷ gs) ≡ erased 0 a gs <> placeholder g <> c
erased-parts a m c g gs falling some_text begins ends =
    let fs = g ∷ gs in
    let shift : 0 + len a ≡ g.start = omega arith in
    erased-append 0 a (m <> c) fs
    ∙ ap (λ t. t <> erased (0 + len a) (m <> c) fs) (erased-before 0 a g gs (omega arith))
    ∙ ap (λ k. erased 0 a gs <> erased k (m <> c) fs) shift
    ∙ ap (λ t. erased 0 a gs <> t)
        (erased-append g.start m c fs
          ∙ ap (λ t. t <> erased (g.start + len m) c fs) (erased-at m g gs falling some_text ends)
          ∙ ap (λ t. placeholder g <> t)
              (erased-behind g.stop (g.start + len m) c fs (some_text, omega arith, falling)
                (omega arith)))
