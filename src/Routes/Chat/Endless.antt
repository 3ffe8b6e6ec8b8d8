-- ===== src/Routes/Chat/Endless.antt =====
-- routes/chat.py `_route_and_call`: a model among its own fallbacks.
use mathlib.Core.List.{append-nil}
use commandclaw_gateway.Prelude.{
  ℕ, zero, suc, String, ◌≡◌, refl, ap, ◌∙◌, Bool, true, false, none, List, [], ◌∷◌, ◌++◌, ◌==◌,
  arith, contains, All, Bool-cases, inl, inr, eq_self, ok, if◌then◌else◌,
}
use commandclaw_gateway.Floats.{Floats}
use commandclaw_gateway.Redis.{Redis}
use commandclaw_gateway.Schemas.{IdentityContext}
use commandclaw_gateway.Config.{GatewayConfig}
use commandclaw_gateway.Routing.Fallbacks.{has_fallbacks, standard}
use commandclaw_gateway.Routing.Fallbacks.Chosen.{get_fallback_models_nil}
use commandclaw_gateway.Routing.Router.{World, select_deployment}
use commandclaw_gateway.Routes.Chat.{
  Providers, Run, more, chain, adds_standard, skip, follow, round, route, route_and_call,
}
use commandclaw_gateway.Routes.Chat.Additions.{contains-append}
use commandclaw_gateway.Routes.Chat.Ending.{standard_models, route_more}

module _ (F : Floats) (R : Redis) (W : World F R) (A : Type 0) (P : Providers F R W A)
    (config : GatewayConfig F.Float) (identity : IdentityContext F.Float) (model : String)
    (r : Run F R W A) where
  -- No deployment can be selected for the model.
  abbrev pub IsUnserved : String → Type 0
  IsUnserved name = select_deployment F R W config identity name 0 r.store ≡ ok none

  abbrev standards : List String
  standards = standard_models F R W A P config identity model

  has_fallbacks_of :
      contains standards model ≡ true → has_fallbacks (chain F R W A P config identity model) ≡ true
  has_fallbacks_of h = elim (Bool-cases (has_fallbacks (chain F R W A P config identity model))) [
    | inl some_fallback ↦ some_fallback
    | inr without ↦
        absurd
          (empty (get_fallback_models_nil (chain F R W A P config identity model) standard without))
  ]
    where
      empty : standards ≡ [] → ⊥
      empty e = unfold contains in cc (ap (λ (l : List String). contains l model) e)

  round_unserved :
      (name : String) (all : List String)
      → IsUnserved name
      → round F R W A P config identity model name all r
        ≡ more (if adds_standard F R W A P config identity model name then standards else []) r
  unfolding round follow skip
  round_unserved name all u = rw (u, follow)

  All-append :
      (xs ys : List String) → All IsUnserved xs → All IsUnserved ys → All IsUnserved (xs ++ ys)
  All-append [] ys us vs = vs
  All-append (x ∷ xs) ys (u, us) vs = (u, All-append xs ys us vs)

  module _ (h : contains standards model ≡ true) (us : All IsUnserved standards) where
    adds_for :
        (name : String) → adds_standard F R W A P config identity model name ≡ (name == model)
    unfolding adds_standard
    adds_for name = elim (Bool-cases (name == model)) [
      | inl same ↦ rw same (has_fallbacks_of h)
      | inr other ↦ rw other
    ]

    added : Bool → List String
    added b = if b then standards else []

    added-All : (b : Bool) → All IsUnserved (added b)
    unfolding added
    added-All true = us
    added-All false = tt

    -- The model stays pending: it still is, or its own round has appended it.
    added-contains :
        (name : String) (pending : List String)
        → contains (name ∷ pending) model ≡ true
        → contains (pending ++ added (name == model)) model ≡ true
    unfolding added contains
    added-contains name pending k = elim (Bool-cases (name == model)) [
      | inl same ↦ rw same (ground (arith, contains-append pending standards model))
      | inr other ↦ rw other (rw append-nil (ground arith))
    ]

    route_endless :
        (fuel : ℕ) (tried pending : List String)
        → All IsUnserved pending
        → contains pending model ≡ true
        → route F R W A P config identity model fuel tried pending r ≡ none
    route_endless fuel tried [] all k = unfold contains in cc
    route_endless zero tried (name ∷ pending) all k = unfold route in refl
    route_endless (suc fuel) tried (name ∷ pending) (u, all) k =
        route_more F R W A P config identity model fuel tried pending name r
          (added (adds_standard F R W A P config identity model name)) r
          (unfold added in round_unserved name (tried ++ name ∷ pending) u)
        ∙ rw (adds_for name) (
            route_endless fuel (tried ++ name ∷ []) (pending ++ added (name == model))
              (All-append pending (added (name == model)) all (added-All (name == model)))
              (added-contains name pending k))

  -- If the model asked for is among its own standard fallbacks, and no deployment can be selected for
  -- it or any of these, the loop over the models never ends, whatever the fuel.
  pub route_and_call-endless :
      contains standards model ≡ true
      → IsUnserved model
      → All IsUnserved standards
      → (fuel : ℕ) → route_and_call F R W A P config identity model fuel r ≡ none
  unfolding route_and_call
  route_and_call-endless h u us fuel =
      route_endless h us fuel [] (model ∷ []) (u, tt) (unfold contains in rw (eq_self model))
