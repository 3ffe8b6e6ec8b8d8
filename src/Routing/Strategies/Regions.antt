-- ===== src/Routing/Strategies/Regions.antt =====
-- routing/strategies.py `filter_by_region`: a region constraint is never relaxed, and
-- which regions it leaves.
use commandclaw_gateway.Prelude.{
  String, ◌≡◌, refl, sym, ap, subst, ◌∙◌, ◌≢◌, ◌⊎◌, ◌==◌, eq_iff, ne_of_eq-false, true, false,
  Option, none, some, List, [], ◌∷◌, contains, is_empty, In, In-keep, Bool-cases, inl, inr,
}
use commandclaw_gateway.Schemas.{Deployment}
use commandclaw_gateway.Routing.Strategies.{region_in, constraint_of, filter_by_region}

region_in_sound :
    (region : Option String) (constraint : List String)
    → region_in region constraint ≡ true
    → (r : String) × (region ≡ some r) × (contains constraint r ≡ true)
unfolding region_in
region_in_sound none constraint h = cc
region_in_sound (some r) constraint h = (r, refl, h)

nil_of_is_empty : (xs : List String) → is_empty xs ≡ true → xs ≡ []
unfolding is_empty
nil_of_is_empty [] h = refl
nil_of_is_empty (x ∷ xs) h = cc

-- The regions that are allowed: the identity's own one where it names one, otherwise those of its
-- team where there are any, and otherwise all of them.
pub data IsAllowed : Option String → Option (List String) → Option String → Type 0 where
  own_region :
      {r : String} {team : Option (List String)} → r ≢ "" → IsAllowed (some r) team (some r)
  team_region :
      {own : Option String} {rs : List String} {r : String}
      → (own ≡ none) ⊎ (own ≡ some "")
      → contains rs r ≡ true
      → IsAllowed own (some rs) (some r)
  any_region :
      {own : Option String} {team : Option (List String)} {region : Option String}
      → (own ≡ none) ⊎ (own ≡ some "")
      → (team ≡ none) ⊎ (team ≡ some [])
      → IsAllowed own team region

-- In a list of regions where one is named.
abbrev Listed : List String → Option String → Type 0
Listed c region = c ≢ [] → (r : String) × (region ≡ some r) × (contains c r ≡ true)

IsAllowed-team :
    (own : Option String) (rs : List String) (region : Option String)
    → (own ≡ none) ⊎ (own ≡ some "")
    → Listed rs region
    → IsAllowed own (some rs) region
IsAllowed-team own [] region unnamed h = any_region unnamed (inr refl)
IsAllowed-team own (x ∷ xs) region unnamed h =
    let (r, e, inside) = h (λ e. cc) in
    subst (IsAllowed own (some (x ∷ xs))) (sym e) (team_region unnamed inside)

IsAllowed-own :
    (r : String) (team : Option (List String)) (region : Option String)
    → (r == "") ≡ false
    → Listed (r ∷ []) region
    → IsAllowed (some r) team region
unfolding contains
IsAllowed-own r team region named h =
    let (s, e, same) = h (λ e. cc) in
    elim (Bool-cases (r == s)) [
      | inl found ↦
          subst (IsAllowed (some r) team) (ap some ((eq_iff r s).0 found) ∙ sym e)
            (own_region (ne_of_eq-false r "" named))
      | inr other ↦ absurd (cc (rw (other, contains) at same))
    ]

pub IsAllowed-constraint_of :
    (own : Option String) (team : Option (List String)) (region : Option String)
    → Listed (constraint_of team own) region
    → IsAllowed own team region
unfolding constraint_of
IsAllowed-constraint_of none none region h = any_region (inl refl) (inl refl)
IsAllowed-constraint_of none (some rs) region h = IsAllowed-team none rs region (inl refl) h
IsAllowed-constraint_of (some r) none region h = elim (Bool-cases (r == "")) [
  | inl blank ↦ any_region (inr (ap some ((eq_iff r "").0 blank))) (inl refl)
  | inr named ↦ IsAllowed-own r none region named (rw named at h)
]
IsAllowed-constraint_of (some r) (some rs) region h = elim (Bool-cases (r == "")) [
  | inl blank ↦
      IsAllowed-team (some r) rs region (inr (ap some ((eq_iff r "").0 blank))) (rw blank at h)
  | inr named ↦ IsAllowed-own r (some rs) region named (rw named at h)
]

module _ {F : Type 0} where
  -- What the filter lets through was offered, and lies in a region of the constraint where there is
  -- one: the identity's own region, or else one of the team's.
  pub filter_by_region_sound :
      (ds : List (Deployment F)) (allowed : Option (List String)) (own : Option String)
      (d : Deployment F)
      → In d (filter_by_region ds allowed own)
      → In d ds
        × (constraint_of allowed own ≢ []
            → (r : String) × (d.region ≡ some r) × (contains (constraint_of allowed own) r ≡ true))
  unfolding filter_by_region
  filter_by_region_sound ds allowed own d m =
      let c = constraint_of allowed own in
      elim (Bool-cases (is_empty c)) [
        | inl free ↦
            (rw (free, filter_by_region) at m, λ bound. absurd (bound (nil_of_is_empty c free)))
        | inr bound ↦
            let (old, passes) =
              In-keep (λ (e : Deployment F). region_in e.region c) d ds
                (rw (bound, filter_by_region) at m) in
            (old, λ _. region_in_sound d.region c passes)
      ]
