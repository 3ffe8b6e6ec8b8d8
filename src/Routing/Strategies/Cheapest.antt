-- ===== src/Routing/Strategies/Cheapest.antt =====
-- routing/strategies.py: the selection by cost (and by latency, whose loop it shares) finds a least
-- measure.
use commandclaw_gateway.Prelude.{
  String, ◌≡◌, refl, ◌⊎◌, true, false, Option, none, some, List, [], ◌∷◌, In, All, Bool-cases,
  Option-cases, inl, inr, ap, sym, subst, ◌∙◌,
}
use commandclaw_gateway.Floats.{Floats, IsOrdered}
use commandclaw_gateway.Schemas.{Deployment}
use commandclaw_gateway.Routing.Strategies.{Pricing, cost_of, select_min, cost_based_select}

module _ (F : Floats) (measure : Deployment F.Float → Option F.Float) where
  -- No known measure of the list is below `v`.
  abbrev pub NoneBelow : F.Float → List (Deployment F.Float) → Type 0
  NoneBelow v ds = All (λ d. (w : F.Float) → measure d ≡ some w → F.lt w v ≡ false) ds

  -- The selection keeps the start, or finds a deployment of the list whose measure is least.
  abbrev pub Found :
      List (Deployment F.Float) → Deployment F.Float → F.Float → Deployment F.Float → Type 0
  Found ds best best_value r =
      ((r ≡ best) × NoneBelow best_value ds)
      ⊎ (In r ds
          × ((v : F.Float) × (measure r ≡ some v) × (F.lt v best_value ≡ true) × NoneBelow v ds))

  -- One round of the loop.
  pub select_min_skip :
      (d : Deployment F.Float) (ds : List (Deployment F.Float)) (b : Deployment F.Float)
      (v : F.Float)
      → measure d ≡ none
      → select_min F measure (d ∷ ds) b v ≡ select_min F measure ds b v
  unfolding select_min
  select_min_skip d ds b v e = rw (e, select_min)

  pub select_min_take :
      (d : Deployment F.Float) (ds : List (Deployment F.Float)) (b : Deployment F.Float)
      (v w : F.Float)
      → measure d ≡ some w
      → F.lt w v ≡ true
      → select_min F measure (d ∷ ds) b v ≡ select_min F measure ds d w
  unfolding select_min
  select_min_take d ds b v w e less = rw (e, select_min) (rw (less, select_min))

  pub select_min_pass :
      (d : Deployment F.Float) (ds : List (Deployment F.Float)) (b : Deployment F.Float)
      (v w : F.Float)
      → measure d ≡ some w
      → F.lt w v ≡ false
      → select_min F measure (d ∷ ds) b v ≡ select_min F measure ds b v
  unfolding select_min
  select_min_pass d ds b v w e other = rw (e, select_min) (rw (other, select_min))

module _ (F : Floats) (O : IsOrdered F) (measure : Deployment F.Float → Option F.Float) where
  not_below : (u v w : F.Float) → F.lt v w ≡ true → F.lt u w ≡ false → F.lt u v ≡ false
  not_below u v w h k = elim (Bool-cases (F.lt u v)) [
    | inl below ↦ absurd (cc (O.lt_trans u v w below h))
    | inr not_less ↦ not_less
  ]

  -- A deployment that does not replace the best: its measure is unknown or not below.
  pass_over :
      (d : Deployment F.Float) (ds : List (Deployment F.Float)) (best : Deployment F.Float)
      (best_value : F.Float) (r : Deployment F.Float)
      → ((w : F.Float) → measure d ≡ some w → F.lt w best_value ≡ false)
      → Found F measure ds best best_value r
      → Found F measure (d ∷ ds) best best_value r
  pass_over d ds best best_value r h (inl (same, none_below)) = inl (same, (h, none_below))
  pass_over d ds best best_value r h (inr (listed, (v, e, less, none_below))) =
      inr (inr listed, (v, e, less, (λ w k. not_below w v best_value less (h w k), none_below)))

  -- A deployment that replaces the best.
  take_over :
      (d : Deployment F.Float) (ds : List (Deployment F.Float)) (best : Deployment F.Float)
      (best_value v : F.Float) (r : Deployment F.Float)
      → measure d ≡ some v
      → F.lt v best_value ≡ true
      → Found F measure ds d v r
      → Found F measure (d ∷ ds) best best_value r
  take_over d ds best best_value v r m less (inl (same, none_below)) = inr (
    inl same,
    (
      v,
      ap measure same ∙ m,
      less,
      (λ w k. rw (let e : w ≡ v = cc in e) (O.lt_irrefl v), none_below),
    ),
  )
  take_over d ds best best_value v r m less (inr (listed, (u, e, below, none_below))) = inr (
    inr listed,
    (
      u,
      e,
      O.lt_trans u v best_value below less,
      (λ w k. rw (let e' : w ≡ v = cc in e') (not_below v u v below (O.lt_irrefl v)), none_below),
    ),
  )

  pub select_min-Found :
      (ds : List (Deployment F.Float)) (best : Deployment F.Float) (best_value : F.Float)
      → Found F measure ds best best_value (select_min F measure ds best best_value)
  select_min-Found [] best best_value = unfold select_min in inl (refl, tt)
  select_min-Found (d ∷ ds) best best_value =
      let P = λ (r : Deployment F.Float). Found F measure (d ∷ ds) best best_value r in
      elim (Option-cases (measure d)) [
        | inl unknown ↦
            subst P (sym (select_min_skip F measure d ds best best_value unknown))
              (pass_over d ds best best_value _ (λ w k. cc) (select_min-Found ds best best_value))
        | inr (v, m) ↦ elim (Bool-cases (F.lt v best_value)) [
          | inl less ↦
              subst P (sym (select_min_take F measure d ds best best_value v m less))
                (take_over d ds best best_value v _ m less (select_min-Found ds d v))
          | inr other ↦ subst P (sym (select_min_pass F measure d ds best best_value v m other)) (
              pass_over d ds best best_value _ (λ w k. rw (let e : w ≡ v = cc in e) other)
                (select_min-Found ds best best_value))
        ]
      ]

-- The selection by cost returns one of the deployments. Either no deployment has a known cost below
-- infinity, or the one returned has a known cost and none of a known cost is cheaper.
pub cost_based_select-least :
    (F : Floats)
    → IsOrdered F
    → (ds : List (Deployment F.Float)) (table : List (String × Pricing F.Float))
      (r : Deployment F.Float)
    → cost_based_select F ds table ≡ some r
    → In r ds
      × (NoneBelow F (cost_of F table) F.inf ds
          ⊎ ((v : F.Float) × (cost_of F table r ≡ some v) × NoneBelow F (cost_of F table) v ds))
unfolding cost_based_select
cost_based_select-least F O [] table r h = cc
cost_based_select-least F O (d ∷ ds) table r h =
    let same : select_min F (cost_of F table) (d ∷ ds) d F.inf ≡ r = cc in
    let found =
      subst (λ x. Found F (cost_of F table) (d ∷ ds) d F.inf x) same
        (select_min-Found F O (cost_of F table) (d ∷ ds) d F.inf) in
    elim found [
      | inl (start, none_below) ↦ (inl start, inl none_below)
      | inr (listed, (v, e, less, none_below)) ↦ (listed, inr (v, e, none_below))
    ]
