-- ===== src/Config/Index.antt =====
-- config.py: what the index of a model holds, and in which order.
use mathlib.Core.List.{Perm, append-nil, append_assoc}
use mathlib.Core.List.Perm
use commandclaw_gateway.Prelude.{
  ℕ, ◌≤◌, String, ◌≡◌, refl, ◌∙◌, ap, sym, Option, none, some, List, [], ◌∷◌, ◌++◌, arith, All, leb,
  ◌==◌, keep, lookup, lookup-insert, Bool-cases, Option-cases, inl, inr, eq_iff,
}
use commandclaw_gateway.Schemas.{Deployment}
use commandclaw_gateway.Config.{
  Group, add_deployment, build_index, insert_by_order, sort_by_order, sort_groups, model_index,
  get_deployments_for_model,
}

module _ {F : Type 0} where
  -- The group of a model, empty where there is none.
  abbrev group_of : Option (Group F) → Group F
  group_of none = []
  group_of (some g) = g

  abbrev for_model : String → Group F → Group F
  for_model model ds = keep (λ d. d.model_name == model) ds

  lookup-add_deployment :
      (model : String) (d : Deployment F) (index : List (String × Group F))
      → group_of (lookup model (add_deployment d index))
        ≡ group_of (lookup model index) ++ for_model model (d ∷ [])
  unfolding add_deployment keep
  lookup-add_deployment model d index = elim (Option-cases (lookup d.model_name index)) [
    | inl e ↦ ground (
      arith,
      e,
      lookup-insert d.model_name model (d ∷ []) index,
      eq_iff d.model_name model,
      append-nil (group_of (lookup model index)),
    )
    | inr (group, e) ↦ ground (
      arith,
      e,
      lookup-insert d.model_name model (group ++ d ∷ []) index,
      eq_iff d.model_name model,
      append-nil (group_of (lookup model index)),
    )
  ]

  for_model-append :
      (model : String) (d : Deployment F) (ds : Group F)
      → for_model model (d ∷ []) ++ for_model model ds ≡ for_model model (d ∷ ds)
  unfolding keep
  for_model-append model d ds = ground arith

  lookup-build_index :
      (model : String) (ds : Group F) (index : List (String × Group F))
      → group_of (lookup model (build_index ds index))
        ≡ group_of (lookup model index) ++ for_model model ds
  unfolding build_index keep
  lookup-build_index model [] index = sym (append-nil _)
  lookup-build_index model (d ∷ ds) index =
      lookup-build_index model ds (add_deployment d index)
      ∙ ap (λ g. g ++ for_model model ds) (lookup-add_deployment model d index)
      ∙ append_assoc (group_of (lookup model index)) (for_model model (d ∷ [])) (for_model model ds)
      ∙ ap (λ g. group_of (lookup model index) ++ g) (for_model-append model d ds)

  lookup-sort_groups :
      (model : String) (index : List (String × Group F))
      → group_of (lookup model (sort_groups index)) ≡ sort_by_order (group_of (lookup model index))
  unfolding sort_groups lookup sort_by_order
  lookup-sort_groups model [] = refl
  lookup-sort_groups model ((name, group) ∷ index) = elim (Bool-cases (name == model)) [
    | inl here ↦ rw here
    | inr there ↦ rw there (lookup-sort_groups model index)
  ]

  group_of-lookup :
      (model : String) (index : List (String × Group F))
      → (let g : Group F = elim (lookup model index) [ none ↦ [] | some group ↦ group ] in g)
        ≡ group_of (lookup model index)
  group_of-lookup model index = ground arith

  get_deployments_for_model-eq :
      (deployments : Group F) (model : String)
      → get_deployments_for_model deployments model ≡ sort_by_order (for_model model deployments)
  unfolding get_deployments_for_model
  get_deployments_for_model-eq deployments model =
      group_of-lookup model (model_index deployments)
      ∙ unfold model_index in
        (lookup-sort_groups model (build_index deployments [])
          ∙ ap sort_by_order (lookup-build_index model deployments []))

  abbrev pub IsSorted : Group F → Type 0
  IsSorted [] = Unit
  IsSorted (d ∷ ds) = All (λ e. d.order ≤ e.order) ds × IsSorted ds

  All-insert_by_order :
      (n : ℕ) (d : Deployment F) (ds : Group F)
      → n ≤ d.order
      → All (λ e. n ≤ e.order) ds
      → All (λ e. n ≤ e.order) (insert_by_order d ds)
  unfolding insert_by_order
  All-insert_by_order n d [] h a = (h, tt)
  All-insert_by_order n d (e ∷ es) h (b, bs) = elim (Bool-cases (leb d.order e.order)) [
    | inl first ↦ rw first (h, (b, bs))
    | inr later ↦ rw later (b, All-insert_by_order n d es h bs)
  ]

  All-le : (n m : ℕ) (ds : Group F) → n ≤ m → All (λ e. m ≤ e.order) ds → All (λ e. n ≤ e.order) ds
  All-le n m [] h a = tt
  All-le n m (d ∷ ds) h (b, bs) = (omega arith, All-le n m ds h bs)

  insert_by_order-IsSorted :
      (d : Deployment F) (ds : Group F) → IsSorted ds → IsSorted (insert_by_order d ds)
  unfolding insert_by_order
  insert_by_order-IsSorted d [] s = (tt, tt)
  insert_by_order-IsSorted d (e ∷ es) (a, s) = elim (Bool-cases (leb d.order e.order)) [
    | inl first ↦ rw first ((ground arith, All-le d.order e.order es (ground arith) a), (a, s))
    | inr later ↦
        rw later
          (All-insert_by_order e.order d es (ground arith) a, insert_by_order-IsSorted d es s)
  ]

  insert_by_order-perm : (d : Deployment F) (ds : Group F) → Perm (insert_by_order d ds) (d ∷ ds)
  unfolding insert_by_order
  insert_by_order-perm d [] = Perm.refl _
  insert_by_order-perm d (e ∷ es) = elim (Bool-cases (leb d.order e.order)) [
    | inl first ↦ rw first (Perm.refl _)
    | inr later ↦ rw later (Perm.trans (Perm.cons e (insert_by_order-perm d es)) (Perm.swap d e es))
  ]

  sort_by_order_lem : (ds : Group F) → IsSorted (sort_by_order ds) × Perm (sort_by_order ds) ds
  unfolding sort_by_order
  sort_by_order_lem [] = (tt, Perm.refl [])
  sort_by_order_lem (d ∷ ds) =
      let (sorted, same) = sort_by_order_lem ds in
      (
        insert_by_order-IsSorted d (sort_by_order ds) sorted,
        Perm.trans (insert_by_order-perm d (sort_by_order ds)) (Perm.cons d same),
      )

  -- The deployments of a model are those of the configuration that have its name, each as often, in
  -- ascending order.
  pub get_deployments_for_model_lem :
      (deployments : Group F) (model : String)
      → IsSorted (get_deployments_for_model deployments model)
        × Perm
            (get_deployments_for_model deployments model)
            (keep (λ d. d.model_name == model) deployments)
  get_deployments_for_model_lem deployments model =
      rw (get_deployments_for_model-eq deployments model)
        (sort_by_order_lem (for_model model deployments))
