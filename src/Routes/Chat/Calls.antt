-- ===== src/Routes/Chat/Calls.antt =====
-- routes/chat.py `_route_and_call`: how often providers are called, and whose answer is returned.
use commandclaw_gateway.Prelude.{
  ℕ, zero, suc, ◌+◌, ◌≤◌, ◌<◌, String, ◌≡◌, refl, sym, subst, ◌∙◌, ◌≢◌, if◌then◌else◌, inl, inr,
  Bool, true, false, Option, none, some, List, [], ◌∷◌, ◌++◌, arith, Try, ok, raise, Error, ltb,
}
use commandclaw_gateway.Floats.{Floats}
use commandclaw_gateway.Redis.{Redis}
use commandclaw_gateway.Schemas.{Deployment, IdentityContext}
use commandclaw_gateway.Config.{GatewayConfig}
use commandclaw_gateway.Routing.Retries.{should_retry, is_context_window_error}
use commandclaw_gateway.Routing.Router.{World, select_deployment}
use commandclaw_gateway.Routes.Chat.{
  Providers, Run, Answer, answered, refused, raised, Ended, returned, too_long, failed, Round, done,
  more, stopped, call, retried, react, attempts, used, noted, conclude, serve, skip, follow, round,
  route, route_and_call,
}
use commandclaw_gateway.Routes.Chat.Ending.{Round-cases, route_done, route_more, route_stopped}

module _ (F : Floats) (R : Redis) (W : World F R) (A : Type 0) (P : Providers F R W A)
    (config : GatewayConfig F.Float) (identity : IdentityContext F.Float) where
  abbrev Outcome : Type 0
  Outcome = Ended A × Run F R W A

  -- The outcome makes at most `most` calls after the `n` made before, and a returned response is
  -- the answer to one of them.
  pub record IsCalled (d : Deployment F.Float) (n most : ℕ) (out : Outcome) : Type 0 where
    pub some_call : n ≤ out.1.calls
    pub bounded : out.1.calls ≤ n + most
    pub source :
        (v : A)
        → out.0 ≡ returned v
        → (i : ℕ) × (n ≤ i) × (i < out.1.calls) × (P.send i d ≡ answered v)

  IsCalled-if :
      {d : Deployment F.Float} {n most : ℕ} (b : Bool) (x y : Outcome)
      → IsCalled d n most x
      → IsCalled d n most y
      → IsCalled d n most (if b then x else y)
  IsCalled-if true x y g h = g
  IsCalled-if false x y g h = h

  IsCalled-eq :
      (d : Deployment F.Float) (n m k : ℕ) (out : Outcome)
      → m ≡ k
      → IsCalled d n m out
      → IsCalled d n k out
  IsCalled-eq d n m k out e g = subst (λ j. IsCalled d n j out) e g

  -- The outcome of later calls, seen from one call before.
  IsCalled-before :
      (d : Deployment F.Float) (n most : ℕ) (out : Outcome)
      → IsCalled d (n + 1) most out
      → IsCalled d n (most + 1) out
  IsCalled-before d n most out g = record {
    some_call = (let h = g.some_call in omega arith);
    bounded = (let h = g.bounded in omega arith);
    source = λ v e. let (i, low, high, s) = g.source v e in (i, omega arith, high, s);
  }

  -- One call that leads to no response.
  IsCalled-lost :
      (d : Deployment F.Float) (n most : ℕ) (ended : Ended A) (r : Run F R W A)
      → r.calls ≡ n + 1
      → ((v : A) → ended ≢ returned v)
      → IsCalled d n (most + 1) (ended, r)
  IsCalled-lost d n most ended r c h = record {
    some_call = omega arith;
    bounded = omega arith;
    source = λ v e. absurd (h v e);
  }

  react-IsCalled :
      (attempt : ℕ) (d : Deployment F.Float) (answer : Answer A) (r : Run F R W A) (again : Outcome)
      (n most : ℕ)
      → r.calls ≡ n + 1
      → P.send n d ≡ answer
      → IsCalled d n (most + 1) again
      → IsCalled d n (most + 1) (react F R W A P config identity attempt d answer r again)
  unfolding react
  react-IsCalled attempt d (answered v) r again n most c s g = record {
    some_call = omega arith;
    bounded = omega arith;
    source = λ w e. (n, omega arith, omega arith, s ∙ cc);
  }
  react-IsCalled attempt d (refused status body) r again n most c s g =
      IsCalled-if (is_context_window_error status body) _ _
        (IsCalled-lost d n most too_long r c (λ v e. cc))
        (IsCalled-if (should_retry status attempt config.router_settings.num_retries none) _ _ g
          (IsCalled-lost d n most failed _ c (λ v e. cc)))
  react-IsCalled attempt d raised r again n most c s g =
      IsCalled-if (ltb attempt config.router_settings.num_retries) _ _ g
        (IsCalled-lost d n most failed _ c (λ v e. cc))

  attempts-IsCalled :
      (left attempt : ℕ) (d : Deployment F.Float) (r : Run F R W A)
      → IsCalled d r.calls (left + 1) (attempts F R W A P config identity left attempt d r)
  unfolding attempts
  attempts-IsCalled zero attempt d r =
      react-IsCalled attempt d _ _ _ r.calls 0 refl refl
        (IsCalled-lost d r.calls 0 failed _ refl (λ v e. cc))
  attempts-IsCalled (suc left) attempt d r =
      let later =
        attempts-IsCalled left (attempt + 1) d
          (retried F R W A P config identity (call F R W A P config identity d r).1) in
      IsCalled-eq d r.calls (left + 1 + 1) (suc left + 1) _ (omega arith) (
        react-IsCalled attempt d _ _ _ r.calls (left + 1) refl refl
          (IsCalled-before d r.calls (left + 1) _ later))

  -- At one deployment at most num_retries + 1 calls are made, and a response that the attempts return
  -- is the answer to one of them.
  pub attempts_lem :
      (d : Deployment F.Float) (r : Run F R W A)
      → IsCalled d r.calls
          (config.router_settings.num_retries + 1)
          (attempts F R W A P config identity config.router_settings.num_retries 0 d r)
  attempts_lem d r = attempts-IsCalled config.router_settings.num_retries 0 d r

  -- A response came from a deployment that was selected for some model, in answer to a call after the
  -- `n` first ones.
  pub record IsServed (n : ℕ) (v : A) (r : Run F R W A) : Type 0 where
    pub name : String
    pub store : R.State
    pub deployment : Deployment F.Float
    pub call_number : ℕ
    pub selected : select_deployment F R W config identity name 0 store ≡ ok (some deployment)
    pub later : n ≤ call_number
    pub made : call_number < r.calls
    pub answer : P.send call_number deployment ≡ answered v

  module _ (model : String) where
    -- What a round comes to, after the `n` first calls.
    abbrev RoundIsCalled : ℕ → Round F R W A P config identity model → Type 0
    RoundIsCalled n (done v r) = IsServed n v r
    RoundIsCalled n (more models r) = n ≤ r.calls
    RoundIsCalled n (stopped e) = Unit

    calls-noted :
        (name : String) (r : Run F R W A)
        → (noted F R W A P config identity model name r).calls ≡ r.calls
    unfolding noted used
    calls-noted name r = ground arith

    conclude-IsCalled :
        (name : String) (all : List String) (store : R.State) (d : Deployment F.Float) (n most : ℕ)
        (ended : Ended A) (r : Run F R W A)
        → select_deployment F R W config identity name 0 store ≡ ok (some d)
        → IsCalled d n most (ended, r)
        → RoundIsCalled n (conclude F R W A P config identity model name all (ended, r))
    unfolding conclude
    conclude-IsCalled name all store d n most (returned v) r found g =
        let (i, low, high, s) = g.source v refl in
        record {
          name = name;
          store = store;
          deployment = d;
          call_number = i;
          selected = found;
          later = low;
          made = high;
          answer = s;
        }
    conclude-IsCalled name all store d n most too_long r found g =
        subst (λ k. n ≤ k)
          (sym (calls-noted name (used F R W A P config identity "context_window:" name r)))
          (unfold used in g.some_call)
    conclude-IsCalled name all store d n most failed r found g =
        subst (λ k. n ≤ k) (sym (calls-noted name r)) g.some_call

    follow-IsCalled :
        (name : String) (all : List String) (r : Run F R W A)
        (found : Try (Option (Deployment F.Float)))
        → select_deployment F R W config identity name 0 r.store ≡ found
        → RoundIsCalled r.calls (follow F R W A P config identity model name all found r)
    unfolding follow serve skip
    follow-IsCalled name all r (raise e) h = tt
    follow-IsCalled name all r (ok none) h = omega arith
    follow-IsCalled name all r (ok (some d)) h = prepared (P.prepare d)
      where
        prepared :
            (o : Option Error)
            → RoundIsCalled r.calls (serve F R W A P config identity model name all d o r)
        prepared (some e) = tt
        prepared none =
            conclude-IsCalled name all r.store d r.calls (config.router_settings.num_retries + 1) _
              _ h (attempts_lem d r)

    round-IsCalled :
        (name : String) (all : List String) (r : Run F R W A)
        → RoundIsCalled r.calls (round F R W A P config identity model name all r)
    unfolding round
    round-IsCalled name all r = follow-IsCalled name all r _ refl

    IsServed-later : {n m : ℕ} {v : A} {r : Run F R W A} → n ≤ m → IsServed m v r → IsServed n v r
    IsServed-later h g = record {
      name = g.name;
      store = g.store;
      deployment = g.deployment;
      call_number = g.call_number;
      selected = g.selected;
      later = (let l = g.later in omega arith);
      made = g.made;
      answer = g.answer;
    }

    -- What the loop comes to.
    abbrev OutIsServed : ℕ → Option (Try (Option A × Run F R W A)) → Type 0
    OutIsServed n none = Unit
    OutIsServed n (some (raise e)) = Unit
    OutIsServed n (some (ok (none, r))) = Unit
    OutIsServed n (some (ok (some v, r))) = IsServed n v r

    OutIsServed-later :
        (n m : ℕ) (out : Option (Try (Option A × Run F R W A)))
        → n ≤ m
        → OutIsServed m out
        → OutIsServed n out
    OutIsServed-later n m none h g = tt
    OutIsServed-later n m (some (raise e)) h g = tt
    OutIsServed-later n m (some (ok (none, r))) h g = tt
    OutIsServed-later n m (some (ok (some v, r))) h g = IsServed-later h g

    route-IsServed :
        (fuel : ℕ) (tried pending : List String) (r : Run F R W A)
        → OutIsServed r.calls (route F R W A P config identity model fuel tried pending r)
    route-IsServed fuel tried [] r = unfold route in tt
    route-IsServed zero tried (name ∷ pending) r = unfold route in tt
    route-IsServed (suc fuel) tried (name ∷ pending) r =
        let now = round-IsCalled name (tried ++ name ∷ pending) r in
        elim (Round-cases F R W A P config identity model
          (round F R W A P config identity model name (tried ++ name ∷ pending) r)) [
            | inl (v, r', e) ↦
                subst (OutIsServed r.calls)
                  (sym
                    (route_done F R W A P config identity model fuel tried pending name r v r' e))
                  (subst (RoundIsCalled r.calls) e now)
            | inr (inr (x, e)) ↦
                subst (OutIsServed r.calls)
                  (sym
                    (route_stopped F R W A P config identity model fuel tried pending name r x e))
                  tt
            | inr (inl (models, r', e)) ↦
                subst (OutIsServed r.calls)
                  (sym (
                    route_more F R W A P config identity model fuel tried pending name r models r'
                      e))
                  (OutIsServed-later r.calls r'.calls _ (subst (RoundIsCalled r.calls) e now)
                    (route-IsServed fuel (tried ++ name ∷ []) (pending ++ models) r'))
          ]

    -- A response that is returned is a provider's answer of status 200 to a call that this request
    -- made, at a deployment that the router had selected for a model.
    pub route_and_call-IsServed :
        (fuel : ℕ) (r : Run F R W A) (v : A) (r' : Run F R W A)
        → route_and_call F R W A P config identity model fuel r ≡ some (ok (some v, r'))
        → IsServed r.calls v r'
    unfolding route_and_call
    route_and_call-IsServed fuel r v r' h =
        subst (OutIsServed r.calls) h (route-IsServed fuel [] (model ∷ []) r)
