-- ===== src/Routes/Chat/First.antt =====
-- routes/chat.py `_route_and_call`: the loop over the models ends.
use mathlib.Core.List.{append-nil}
use commandclaw_gateway.Prelude.{
  ℕ, zero, suc, ◌+◌, ◌≤◌, ◌<◌, String, ◌≡◌, ◌≢◌, refl, sym, subst, ◌∙◌, inl, inr, Bool, true, false,
  Option, none, some, List, [], ◌∷◌, ◌++◌, arith, length, contains, eq_self, Try, ok, raise, Error,
  if◌then◌else◌,
}
use commandclaw_gateway.Floats.{Floats}
use commandclaw_gateway.Redis.{Redis}
use commandclaw_gateway.Schemas.{Deployment, IdentityContext}
use commandclaw_gateway.Config.{GatewayConfig}
use commandclaw_gateway.Routing.Router.{World, select_deployment}
use commandclaw_gateway.Routes.Chat.{
  Providers, Run, Round, done, more, stopped, Ended, returned, too_long, failed, additions,
  adds_standard, standard_additions, conclude, serve, skip, follow, round, route_and_call, attempts,
}
use commandclaw_gateway.Routes.Chat.Additions.{
  missing, contains-append, length-additions, missing-additions, additions-new, missing-le,
  missing-append,
}
use commandclaw_gateway.Routes.Chat.Ending.{
  standard_models as standard_of, long_models as long_of, Round-cases, route_done, route_more,
  route_stopped, route-Ends, length-append,
}

module _ (F : Floats) (R : Redis) (W : World F R) (A : Type 0) (P : Providers F R W A)
    (config : GatewayConfig F.Float) (identity : IdentityContext F.Float) (model : String) where
  abbrev pub standard_models : List String
  standard_models = standard_of F R W A P config identity model

  abbrev pub long_models : List String
  long_models = long_of F R W A P config identity model

  -- The first round, which is the one for the model asked for.
  abbrev FitsFirst : List String → Type 0
  FitsFirst models =
      (contains models model ≡ false)
      × (length models + missing long_models (model ∷ models)
          ≤ length standard_models + length long_models)

  abbrev RoundIsFirst : Round F R W A P config identity model → Type 0
  RoundIsFirst (done v r) = Unit
  RoundIsFirst (more models r) = FitsFirst models
  RoundIsFirst (stopped e) = Unit

  abbrev first_all : List String
  first_all = model ∷ []

  first_listed : contains first_all model ≡ true
  unfolding contains
  first_listed = rw (eq_self model)

  FitsFirst-nil : FitsFirst []
  FitsFirst-nil = (unfold contains in refl, omega (arith, missing-le long_models (model ∷ [])))

  FitsFirst-skip :
      contains standard_models model ≡ false
      → (b : Bool) → FitsFirst (if b then standard_models else [])
  FitsFirst-skip h true = (h, omega (arith, missing-le long_models (model ∷ standard_models)))
  FitsFirst-skip h false = FitsFirst-nil

  FitsFirst-failed : (b : Bool) → FitsFirst (if b then additions standard_models first_all else [])
  FitsFirst-failed true = (
    additions-new standard_models first_all model first_listed,
    omega (
      arith,
      length-additions standard_models first_all,
      missing-le standard_models first_all,
      missing-le long_models (model ∷ additions standard_models first_all),
    ),
  )
  FitsFirst-failed false = FitsFirst-nil

  abbrev long : List String
  long = additions long_models first_all

  FitsFirst-too_long :
      (b : Bool)
      → FitsFirst (long ++ (if b then additions standard_models (first_all ++ long) else []))
  FitsFirst-too_long true =
      let all = first_all ++ long in
      let extra = additions standard_models all in
      let none_missing : missing long_models (first_all ++ long) ≡ 0 =
        missing-additions long_models first_all in
      (
        contains-append long extra model
            ∙ rw (
              additions-new long_models first_all model first_listed,
              additions-new standard_models all model
                  (contains-append first_all long model ∙ rw first_listed),
            ),
        omega (
          arith,
          length-append F R W A P config identity model long extra,
          length-additions long_models first_all,
          length-additions standard_models all,
          missing-le long_models first_all,
          missing-le standard_models all,
          missing-append long_models (first_all ++ long) extra,
        ),
      )
  FitsFirst-too_long false = rw append-nil (
    additions-new long_models first_all model first_listed,
    omega (
      arith,
      length-additions long_models first_all,
      missing-le long_models first_all,
      missing-additions long_models first_all,
    ),
  )

  conclude-IsFirst :
      (ended : Ended A) (r : Run F R W A)
      → RoundIsFirst (conclude F R W A P config identity model model first_all (ended, r))
  unfolding conclude standard_additions
  conclude-IsFirst (returned v) r = tt
  conclude-IsFirst too_long r =
      FitsFirst-too_long (adds_standard F R W A P config identity model model)
  conclude-IsFirst failed r = FitsFirst-failed (adds_standard F R W A P config identity model model)

  module _ (h : contains standard_models model ≡ false) where
    follow-IsFirst :
        (found : Try (Option (Deployment F.Float))) (r : Run F R W A)
        → RoundIsFirst (follow F R W A P config identity model model first_all found r)
    unfolding follow serve skip
    follow-IsFirst (raise e) r = tt
    follow-IsFirst (ok none) r =
        FitsFirst-skip h (adds_standard F R W A P config identity model model)
    follow-IsFirst (ok (some d)) r = prepared (P.prepare d)
      where
        prepared :
            (o : Option Error)
            → RoundIsFirst (serve F R W A P config identity model model first_all d o r)
        prepared (some e) = tt
        prepared none =
            conclude-IsFirst
              (attempts F R W A P config identity config.router_settings.num_retries 0 d r).0
              (attempts F R W A P config identity config.router_settings.num_retries 0 d r).1

    first-IsFirst :
        (r : Run F R W A) → RoundIsFirst (round F R W A P config identity model model first_all r)
    unfolding round
    first-IsFirst r = follow-IsFirst (select_deployment F R W config identity model 0 r.store) r

    -- If the model asked for is none of its own standard fallbacks, the loop over the models ends,
    -- whatever the providers answer: after at most one round for it, one for each standard and one
    -- for each context-window fallback.
    pub route_and_call-ends :
        (fuel : ℕ) (r : Run F R W A)
        → length standard_models + length long_models < fuel
        → route_and_call F R W A P config identity model fuel r ≢ none
    unfolding route_and_call
    route_and_call-ends zero r enough = absurd (omega arith)
    route_and_call-ends (suc fuel) r enough =
        elim (Round-cases F R W A P config identity model
          (round F R W A P config identity model model first_all r)) [
            | inl (v, r', e) ↦
                λ out. cc (route_done F R W A P config identity model fuel [] [] model r v r' e)
            | inr (inr (x, e)) ↦
                λ out. cc (route_stopped F R W A P config identity model fuel [] [] model r x e)
            | inr (inl (models, r', e)) ↦
                let (new, few) = subst RoundIsFirst e (first-IsFirst r) in
                let step =
                  route_more F R W A P config identity model fuel [] [] model r models r' e in
                let rest =
                  route-Ends F R W A P config identity model fuel first_all models r' (omega arith)
                    first_listed new in
                λ out. rest (sym step ∙ out)
          ]
