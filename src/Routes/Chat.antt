-- ===== src/Routes/Chat.antt =====
-- routes/chat.py `_route_and_call`: a request is routed to a deployment, called with retries, and
-- handed on to fallback models. Sleeping, metrics and traces are left out; the answers of the
-- providers are a parameter.
pub mod Additions
pub mod Ending
pub mod First
pub mod Endless
pub mod Calls
use commandclaw_gateway.Prelude.{
  ℕ, zero, suc, ◌+◌, String, Bool, true, false, ◌&&◌, Option, none, some, List, [], ◌∷◌, ◌++◌, ◌==◌,
  ltb, if◌then◌else◌, contains, ◌<>◌, Try, Error, ok, raise,
}
use commandclaw_gateway.Floats.{Floats}
use commandclaw_gateway.Redis.{Redis}
use commandclaw_gateway.Schemas.{Deployment, IdentityContext}
use commandclaw_gateway.Config.{GatewayConfig}
use commandclaw_gateway.Routing.Retries.{ErrorBody, should_retry, is_context_window_error}
use commandclaw_gateway.Routing.Fallbacks.{
  FallbackChain, fallback_chain, has_fallbacks, get_fallback_models, standard, context_window,
}
use commandclaw_gateway.Routing.Cooldowns.{record_failure, reset_cooldown}
use commandclaw_gateway.Routing.Router.{World, deployment_busy_counter, select_deployment}

-- What came of a call: a response of status 200 as the provider's adapter transforms it, a response
-- of another status, or an exception.
pub data Answer (A : Type 0) : Type 0 where
  answered : A → Answer A
  refused : ℕ → ErrorBody → Answer A
  raised : Answer A

-- How the attempts at one deployment end.
pub data Ended (A : Type 0) : Type 0 where
  returned : A → Ended A
  too_long : Ended A
  failed : Ended A

-- `for fb in fallbacks: if fb not in models_to_try: models_to_try.append(fb)`: what is appended.
unfoldable pub additions : List String → List String → List String
additions [] all = []
additions (f ∷ fs) all = elim (contains all f) [
  | true ↦ additions fs all
  | false ↦ f ∷ additions fs (all ++ f ∷ [])
]

module _ (F : Floats) (R : Redis) (W : World F R) (A : Type 0) where
  -- The providers: whether a request can be prepared for a deployment, and the answer to the n-th
  -- call.
  pub record Providers : Type 0 where
    pub prepare : Deployment F.Float → Option Error
    pub send : ℕ → Deployment F.Float → Answer A

  -- The state of a request: the server, the calls made so far, and two fields of `ctx`.
  pub record Run : Type 0 where
    pub store : R.State
    pub calls : ℕ
    pub retries_used : ℕ
    pub fallbacks_used : List String

  module _ (P : Providers) (config : GatewayConfig F.Float)
      (identity : IdentityContext F.Float) where
    -- One call, within `deployment_busy_counter`.
    unfoldable pub call : Deployment F.Float → Run → Answer A × Run
    call d r = (
      P.send r.calls d,
      record r { store = deployment_busy_counter R d.deployment_id r.store; calls = r.calls + 1 },
    )

    unfoldable pub retried : Run → Run
    retried r = record r { retries_used = r.retries_used + 1 }

    unfoldable pub punished : Deployment F.Float → Run → Run
    punished d r = record r {
      store =
          record_failure R d.deployment_id config.router_settings.allowed_fails
            config.router_settings.cooldown_time r.store;
    }

    -- What follows a call: `again` is the next attempt.
    unfoldable pub react : ℕ → Deployment F.Float → Answer A → Run → Ended A × Run → Ended A × Run
    unfolding retried punished
    react attempt d (answered v) r again =
        (returned v, record r { store = reset_cooldown R d.deployment_id r.store })
    react attempt d (refused status body) r again =
        if is_context_window_error status body
        then (too_long, r)
        else if should_retry status attempt config.router_settings.num_retries none
        then again
        else (failed, punished d r)
    react attempt d raised r again =
        if ltb attempt config.router_settings.num_retries
        then again
        else (failed, punished d (retried r))

    -- `for attempt in range(max_retries + 1)`, with `left` attempts after this one. A retry that is
    -- due after the last attempt ends the loop.
    unfoldable pub attempts : ℕ → ℕ → Deployment F.Float → Run → Ended A × Run
    unfolding call react
    attempts zero attempt d r =
        let (answer, r') = call d r in react attempt d answer r' (failed, retried r')
    attempts (suc left) attempt d r =
        let (answer, r') = call d r in
        react attempt d answer r' (attempts left (attempt + 1) d (retried r'))

    unfoldable pub used : String → String → Run → Run
    used kind model r = record r { fallbacks_used = r.fallbacks_used ++ (kind <> model) ∷ [] }

    module _ (model : String) where
      unfoldable pub chain : FallbackChain
      chain = fallback_chain model config.router_settings

      -- `model_name == ctx.model and fallback_chain.has_fallbacks()`
      unfoldable pub adds_standard : String → Bool
      unfolding chain
      adds_standard name = name == model && has_fallbacks chain

      -- The models to try once the attempts at a deployment for `name` have failed; `all` are the
      -- models up to here.
      unfoldable pub standard_additions : String → List String → List String
      unfolding adds_standard additions
      standard_additions name all =
          if adds_standard name then additions (get_fallback_models chain standard) all else []

      unfoldable pub noted : String → Run → Run
      unfolding used
      noted name r = if adds_standard name then used "standard:" name r else r

      -- What one round of the loop over `models_to_try` comes to: a result, or the models that it
      -- appends.
      pub data Round : Type 0 where
        done : A → Run → Round
        more : List String → Run → Round
        stopped : Error → Round

      -- `tried ++ name ∷ pending` is `models_to_try`, and `name` is the model of this round.
      unfoldable pub conclude : String → List String → Ended A × Run → Round
      unfolding standard_additions noted used additions
      conclude name all (returned v, r) = done v r
      conclude name all (too_long, r) =
          let long = additions (get_fallback_models chain context_window) all in
          more (long ++ standard_additions name (all ++ long))
            (noted name (used "context_window:" name r))
      conclude name all (failed, r) = more (standard_additions name all) (noted name r)

      unfoldable pub serve : String → List String → Deployment F.Float → Option Error → Run → Round
      unfolding conclude attempts
      serve name all d (some e) r = stopped e
      serve name all d none r =
          conclude name all (attempts config.router_settings.num_retries 0 d r)

      -- No deployment: the standard fallbacks are appended, listed already or not.
      unfoldable pub skip : String → Run → Round
      unfolding adds_standard
      skip name r = more (if adds_standard name then get_fallback_models chain standard else []) r

      unfoldable pub follow : String → List String → Try (Option (Deployment F.Float)) → Run → Round
      unfolding serve skip
      follow name all (raise e) r = stopped e
      follow name all (ok none) r = skip name r
      follow name all (ok (some d)) r = serve name all d (P.prepare d) r

      unfoldable pub round : String → List String → Run → Round
      unfolding follow
      round name all r = follow name all (select_deployment F R W config identity name 0 r.store) r

      -- `for model_name in models_to_try` over the growing list, on fuel: `none` is a loop that has
      -- not ended.
      unfoldable pub route : ℕ → List String → List String → Run → Option (Try (Option A × Run))
      unfolding round
      route fuel tried [] r = some (ok (none, r))
      route zero tried (name ∷ pending) r = none
      route (suc fuel) tried (name ∷ pending) r = elim (round name (tried ++ name ∷ pending) r) [
        | done v r' ↦ some (ok (some v, r'))
        | more models r' ↦ route fuel (tried ++ name ∷ []) (pending ++ models) r'
        | stopped e ↦ some (raise e)
      ]

      unfoldable pub route_and_call : ℕ → Run → Option (Try (Option A × Run))
      unfolding route
      route_and_call fuel r = route fuel [] (model ∷ []) r
