-- ===== src/Routes/Chat/Ending.antt =====
-- routes/chat.py `_route_and_call`: when the loop over the models ends, and when it does not.
use mathlib.Core.List.{append_assoc, append-nil}
use commandclaw_gateway.Prelude.{
  ℕ, zero, suc, ◌+◌, ◌≤◌, String, ◌≡◌, ◌≢◌, refl, sym, subst, ◌∙◌, ◌⊎◌, inl, inr, true, false,
  Option, none, some, List, [], ◌∷◌, ◌++◌, ◌==◌, arith, length, contains, Try, ok, raise, Error,
}
use commandclaw_gateway.Floats.{Floats}
use commandclaw_gateway.Redis.{Redis}
use commandclaw_gateway.Schemas.{Deployment, IdentityContext}
use commandclaw_gateway.Config.{GatewayConfig}
use commandclaw_gateway.Routing.Fallbacks.{get_fallback_models, standard, context_window}
use commandclaw_gateway.Routing.Router.{World, select_deployment}
use commandclaw_gateway.Routes.Chat.{
  Providers, Run, Round, done, more, stopped, Ended, returned, too_long, failed, additions, chain,
  adds_standard, conclude, serve, skip, follow, round, route, attempts,
}
use commandclaw_gateway.Routes.Chat.Additions.{
  missing, contains-append, length-additions, missing-additions, additions-new,
}

module _ (F : Floats) (R : Redis) (W : World F R) (A : Type 0) (P : Providers F R W A)
    (config : GatewayConfig F.Float) (identity : IdentityContext F.Float) (model : String) where
  abbrev pub standard_models : List String
  standard_models = get_fallback_models (chain F R W A P config identity model) standard

  abbrev pub long_models : List String
  long_models = get_fallback_models (chain F R W A P config identity model) context_window

  -- The models that a round for a fallback appends are new context-window fallbacks.
  abbrev pub IsAppended : List String → List String → Type 0
  IsAppended all models = (models ≡ []) ⊎ (models ≡ additions long_models all)

  abbrev pub RoundIsFallback : List String → Round F R W A P config identity model → Type 0
  RoundIsFallback all (done v r) = Unit
  RoundIsFallback all (more models r) = IsAppended all models
  RoundIsFallback all (stopped e) = Unit

  other_adds_none :
      (name : String)
      → (name == model) ≡ false
      → adds_standard F R W A P config identity model name ≡ false
  unfolding adds_standard
  other_adds_none name h = rw h

  conclude-IsFallback :
      (name : String) (all : List String) (ended : Ended A) (r : Run F R W A)
      → (name == model) ≡ false
      → RoundIsFallback all (conclude F R W A P config identity model name all (ended, r))
  unfolding conclude
  conclude-IsFallback name all (returned v) r h = tt
  conclude-IsFallback name all too_long r h = rw (other_adds_none name h) (inr (append-nil _))
  conclude-IsFallback name all failed r h = rw (other_adds_none name h) (inl refl)

  follow-IsFallback :
      (name : String) (all : List String) (found : Try (Option (Deployment F.Float)))
      (r : Run F R W A)
      → (name == model) ≡ false
      → RoundIsFallback all (follow F R W A P config identity model name all found r)
  unfolding follow serve skip
  follow-IsFallback name all (raise e) r h = tt
  follow-IsFallback name all (ok none) r h = rw (other_adds_none name h) (inl refl)
  follow-IsFallback name all (ok (some d)) r h = prepared (P.prepare d)
    where
      prepared :
          (o : Option Error)
          → RoundIsFallback all (serve F R W A P config identity model name all d o r)
      prepared (some e) = tt
      prepared none =
          conclude-IsFallback name all
            (attempts F R W A P config identity config.router_settings.num_retries 0 d r).0
            (attempts F R W A P config identity config.router_settings.num_retries 0 d r).1 h

  round-IsFallback :
      (name : String) (all : List String) (r : Run F R W A)
      → (name == model) ≡ false
      → RoundIsFallback all (round F R W A P config identity model name all r)
  unfolding round
  round-IsFallback name all r h =
      follow-IsFallback name all (select_deployment F R W config identity name 0 r.store) r h

  -- Rounds left at most: the pending models, and the context-window fallbacks not listed.
  abbrev pub rounds : List String → List String → ℕ
  rounds all pending = length pending + missing long_models all

  abbrev pub Ends : ℕ → List String → List String → Run F R W A → Type 0
  Ends fuel tried pending r = route F R W A P config identity model fuel tried pending r ≢ none

  regroup :
      (tried pending more_models : List String) (name : String)
      → (tried ++ name ∷ []) ++ (pending ++ more_models) ≡ (tried ++ name ∷ pending) ++ more_models
  regroup tried pending more_models name =
      append_assoc tried (name ∷ []) (pending ++ more_models)
      ∙ sym (append_assoc tried (name ∷ pending) more_models)

  pub length-append : (xs ys : List String) → length (xs ++ ys) ≡ length xs + length ys
  length-append [] ys = omega arith
  length-append (x ∷ xs) ys = omega (arith, length-append xs ys)

  rounds-appended :
      (tried pending models : List String) (name : String)
      → IsAppended (tried ++ name ∷ pending) models
      → rounds ((tried ++ name ∷ []) ++ (pending ++ models)) (pending ++ models) + 1
        ≤ rounds (tried ++ name ∷ pending) (name ∷ pending)
  rounds-appended tried pending models name (inl e) = rw (e, append-nil, append_assoc) (omega arith)
  rounds-appended tried pending models name (inr e) =
      let all = tried ++ name ∷ pending in
      rw
        (
          regroup tried pending models name,
          length-append pending models,
          e,
          missing-additions long_models all,
        )
        (omega (arith, length-additions long_models all))

  pub Round-cases :
      (x : Round F R W A P config identity model)
      → ((v : A) × (r : Run F R W A) × (x ≡ done v r))
        ⊎ ((models : List String) × (r : Run F R W A) × (x ≡ more models r))
        ⊎ ((e : Error) × (x ≡ stopped e))
  Round-cases (done v r) = inl (v, r, refl)
  Round-cases (more models r) = inr (inl (models, r, refl))
  Round-cases (stopped e) = inr (inr (e, refl))

  module _ (fuel : ℕ) (tried pending : List String) (name : String) (r : Run F R W A) where
    abbrev pub this : Round F R W A P config identity model
    this = round F R W A P config identity model name (tried ++ name ∷ pending) r

    pub route_done :
        (v : A) (r' : Run F R W A)
        → this ≡ done v r'
        → route F R W A P config identity model (suc fuel) tried (name ∷ pending) r
          ≡ some (ok (some v, r'))
    unfolding route
    route_done v r' e = rw (e, route)

    pub route_more :
        (models : List String) (r' : Run F R W A)
        → this ≡ more models r'
        → route F R W A P config identity model (suc fuel) tried (name ∷ pending) r
          ≡ route F R W A P config identity model fuel (tried ++ name ∷ []) (pending ++ models) r'
    unfolding route
    route_more models r' e = rw (e, route)

    pub route_stopped :
        (x : Error)
        → this ≡ stopped x
        → route F R W A P config identity model (suc fuel) tried (name ∷ pending) r ≡ some (raise x)
    unfolding route
    route_stopped x e = rw (e, route)

  appended-new :
      (all models : List String)
      → IsAppended all models
      → contains all model ≡ true
      → contains models model ≡ false
  appended-new all models (inl e) h = rw e (unfold contains in refl)
  appended-new all models (inr e) h = rw e (additions-new long_models all model h)

  -- Once the model asked for has had its round and is not pending, the loop ends within `rounds`.
  pub route-Ends :
      (fuel : ℕ) (tried pending : List String) (r : Run F R W A)
      → rounds (tried ++ pending) pending ≤ fuel
      → contains tried model ≡ true
      → contains pending model ≡ false
      → Ends fuel tried pending r
  unfolding contains
  route-Ends fuel tried [] r enough h k = λ e. unfold route in cc
  route-Ends zero tried (name ∷ pending) r enough h k = absurd (omega arith)
  route-Ends (suc fuel) tried (name ∷ pending) r enough h k =
      elim (Round-cases (this fuel tried pending name r)) [
        | inl (v, r', e) ↦ λ out. cc (route_done fuel tried pending name r v r' e)
        | inr (inr (x, e)) ↦ λ out. cc (route_stopped fuel tried pending name r x e)
        | inr (inl (models, r', e)) ↦
            let other : (name == model) ≡ false = ground arith in
            let appended =
              subst (RoundIsFallback (tried ++ name ∷ pending)) e
                (round-IsFallback name (tried ++ name ∷ pending) r other) in
            let fewer = rounds-appended tried pending models name appended in
            let listed = contains-append tried (name ∷ pending) model in
            let new = appended-new (tried ++ name ∷ pending) models appended (ground arith) in
            let step = route_more fuel tried pending name r models r' e in
            let rest =
              route-Ends fuel (tried ++ name ∷ []) (pending ++ models) r' (omega arith)
                (ground (arith, contains-append tried (name ∷ []) model))
                (ground (arith, contains-append pending models model)) in
            λ out. rest (sym step ∙ out)
      ]
