-- ===== src/Middleware/RateLimiter/Recent.antt =====
-- middleware/rate_limiter.py: how many requests of a list are younger than a window.
use commandclaw_gateway.Prelude.{
  ℕ, suc, ◌+◌, ◌-◌, ◌<◌, ◌≤◌, String, ◌≡◌, refl, inl, inr, Bool, false, not, List, [], ◌∷◌, ◌++◌,
  ◌==◌, ltb, arith, if◌then◌else◌, keep, length, Bool-cases, All,
}

-- A request: its id and its time.
abbrev pub Arrival : Type 0
Arrival = String × ℕ

-- How many requests of a list are younger than the window at a time.
abbrev pub recent : ℕ → ℕ → List Arrival → ℕ
recent window now [] = 0
recent window now (p ∷ ps) =
    let rest = recent window now ps in if ltb now (p.1 + window) then suc rest else rest

-- Times that do not go back, and ids that are all different.
abbrev pub Later : ℕ → List Arrival → Type 0
Later now [] = Unit
Later now (r ∷ rs) = (now ≤ r.1) × Later r.1 rs

abbrev pub Other : Arrival → Arrival → Type 0
Other r p = (p.0 == r.0) ≡ false

abbrev pub AllOther : List Arrival → Type 0
AllOther [] = Unit
AllOther (r ∷ rs) = All (λ q. Other q r) rs × AllOther rs

pub recent-append :
    (window now : ℕ) (ps qs : List Arrival)
    → recent window now (ps ++ qs) ≡ recent window now ps + recent window now qs
recent-append window now [] qs = omega arith
recent-append window now (p ∷ ps) qs = ground (arith, recent-append window now ps qs)

pub recent-keep :
    (window now later : ℕ) (ps : List Arrival)
    → window ≤ now
    → now ≤ later
    → recent window later (keep (λ p. ltb (now - window) p.1) ps) ≡ recent window later ps
unfolding keep
recent-keep window now later [] old on = refl
recent-keep window now later (p ∷ ps) old on =
    let rest = recent-keep window now later ps old on in
    elim (Bool-cases (ltb (now - window) p.1)) [
      | inl fresh ↦ rw (fresh, rest) refl
      | inr stale ↦
          let out : ltb later (p.1 + window) ≡ false = ground arith in rw (stale, out, rest) refl
    ]

pub length-keep-recent :
    (window now : ℕ) (ps : List Arrival)
    → window ≤ now
    → length (keep (λ p. ltb (now - window) p.1) ps) ≡ recent window now ps
unfolding keep
length-keep-recent window now [] old = refl
length-keep-recent window now (p ∷ ps) old = ground (arith, length-keep-recent window now ps old)

pub length-recent :
    (window now : ℕ) (ps : List Arrival) → now < window → length ps ≡ recent window now ps
length-recent window now [] early = refl
length-recent window now (p ∷ ps) early = ground (arith, length-recent window now ps early)

pub keep-Other :
    (r : Arrival) (ps : List Arrival) → All (Other r) ps → keep (λ p. not (p.0 == r.0)) ps ≡ ps
unfolding keep
keep-Other r [] h = refl
keep-Other r (p ∷ ps) (other, h) = rw (other, keep-Other r ps h) refl

module _ (P : Arrival → Type 0) where
  pub All-keep : (f : Arrival → Bool) (ps : List Arrival) → All P ps → All P (keep f ps)
  unfolding keep
  All-keep f [] h = tt
  All-keep f (p ∷ ps) (h, hs) = elim (Bool-cases (f p)) [
    | inl pass ↦ rw pass (h, All-keep f ps hs)
    | inr fail ↦ rw fail (All-keep f ps hs)
  ]

  pub All-between :
      (ps qs : List Arrival) (r : Arrival) → P r → All P (ps ++ qs) → All P (ps ++ r ∷ qs)
  All-between [] qs r h hs = (h, hs)
  All-between (p ∷ ps) qs r h (h', hs) = (h', All-between ps qs r h hs)

pub All-map :
    (P Q : Arrival → Type 0) (f : (p : Arrival) → P p → Q p) (ps : List Arrival)
    → All P ps
    → All Q ps
All-map P Q f [] h = tt
All-map P Q f (p ∷ ps) (h, hs) = (f p h, All-map P Q f ps hs)

pub All-both :
    (P Q : Arrival → Type 0) (ps : List Arrival) → All P ps → All Q ps → All (λ p. P p × Q p) ps
All-both P Q [] hs ks = tt
All-both P Q (p ∷ ps) (h, hs) (k, ks) = ((h, k), All-both P Q ps hs ks)
