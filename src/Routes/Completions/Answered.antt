-- ===== src/Routes/Completions/Answered.antt =====
-- routes/chat.py: what an answered request has passed, and what the others cost.
use commandclaw_gateway.Prelude.{
  ℕ, String, ◌≡◌, refl, true, false, Option, none, some, List, Try, ok, raise,
}
use commandclaw_gateway.Floats.{Floats}
use commandclaw_gateway.Redis.{Redis}
use commandclaw_gateway.Schemas.{IdentityContext}
use commandclaw_gateway.Config.{GatewayConfig}
use commandclaw_gateway.Routing.Strategies.{Pricing}
use commandclaw_gateway.Routing.Router.{World}
use commandclaw_gateway.Middleware.RateLimiter.{Clock, check_and_increment_rate_limit}
use commandclaw_gateway.Middleware.Limits.{Headers, Outcome}
use commandclaw_gateway.Middleware.MemoryCache.{MemoryCache}
use commandclaw_gateway.Middleware.Cache.{Json, Responses, Stores}
use commandclaw_gateway.Middleware.CostTracker.{SpendLog}
use commandclaw_gateway.Auth.Budgets.{Level, check_budget}
use commandclaw_gateway.Routes.Chat.{Providers, Run, route_and_call}
use commandclaw_gateway.Routes.Chat.Calls.{IsServed, route_and_call-IsServed}
use commandclaw_gateway.Routes.Completions.{
  Completion, Checks, answered, Session, Done, cache_key, returned, charge, checked,
  handle_non_streaming, start, guarded, looked_up, budgeted, admit, limits_request,
  chat_completions,
}

module _ (F : Floats) (R : Redis) (W : World F R) (V : Json) (J : Responses F)
    (P : Providers F R W J.Response) (checks : Checks F R W V J) (config : GatewayConfig F.Float)
    (table : List (String × Pricing F.Float)) (dump : SpendLog F.Float → String)
    (identity : IdentityContext F.Float) (clock : Clock F R) (q : Completion F R W V J) where
  -- The answer of a provider as the client gets it: with the time and the model of the cache write,
  -- if there was one.
  abbrev pub as_returned : J.Response → J.Response
  as_returned v =
      returned F R W V J P checks config table dump identity clock q
        (cache_key F R W V J P checks config table dump identity clock q) v

  -- What a response `v` has passed, for a request that begins after `n` calls to providers.
  pub record IsPassed (n : ℕ) (server : R.State) (v : J.Response) : Type 0 where
    pub headers : Headers R
    pub limited_server : R.State
    pub within_limits :
        check_and_increment_rate_limit F R identity clock
          (limits_request F R W V J P checks config table dump identity clock q)
          false
          server
        ≡ ok (true, headers, limited_server)
    pub within_budget : check_budget F R identity F.zero limited_server ≡ ok none
    pub before : checks.before q ≡ none
    pub answer : J.Response
    pub same : v ≡ as_returned answer
    pub after : checks.after answer ≡ none
    pub run : Run F R W J.Response
    pub served : IsServed F R W J.Response P config identity n answer run

  -- What comes behind the guardrails.
  pub record IsRouted (n : ℕ) (v : J.Response) : Type 0 where
    pub answer : J.Response
    pub same : v ≡ as_returned answer
    pub after : checks.after answer ≡ none
    pub run : Run F R W J.Response
    pub served : IsServed F R W J.Response P config identity n answer run

  abbrev Result : Type 0
  Result = Done F R W V J

  abbrev Answers : Result → J.Response → SpendLog F.Float → Session F R W V J → Type 0
  Answers out v log t = out ≡ some (ok (answered v log, t))

  charge-eq :
      (w v : J.Response) (log : SpendLog F.Float) (r : Run F R W J.Response)
      (local : MemoryCache F J.Response) (t : Session F R W V J)
      → Answers
          (some (ok (charge F R W V J P checks config table dump identity clock q w r local)))
          v
          log
          t
      → v ≡ as_returned w
  unfolding charge cache_key
  charge-eq w v log r local t h = cc

  checked-eq :
      (o : Option String) (w v : J.Response) (log : SpendLog F.Float) (r : Run F R W J.Response)
      (local : MemoryCache F J.Response) (t : Session F R W V J)
      → Answers
          (some (ok (checked F R W V J P checks config table dump identity clock q o w r local)))
          v
          log
          t
      → (o ≡ none) × (v ≡ as_returned w)
  unfolding checked
  checked-eq none w v log r local t h = (refl, charge-eq w v log r local t h)
  checked-eq (some reason) w v log r local t h = cc

  handled :
      (n : ℕ) (out : Option (Try (Option J.Response × Run F R W J.Response)))
      (local : MemoryCache F J.Response) (v : J.Response) (log : SpendLog F.Float)
      (t : Session F R W V J)
      → ((w : J.Response) (r : Run F R W J.Response)
          → out ≡ some (ok (some w, r))
          → IsServed F R W J.Response P config identity n w r)
      → Answers
          (handle_non_streaming F R W V J P checks config table dump identity clock q out local)
          v
          log
          t
      → IsRouted n v
  unfolding handle_non_streaming
  handled n none local v log t g h = cc
  handled n (some (raise e)) local v log t g h = cc
  handled n (some (ok (none, r))) local v log t g h = cc
  handled n (some (ok (some w, r))) local v log t g h =
      let (passed, same) = checked-eq (checks.after w) w v log r local t h in
      record { answer = w; same = same; after = passed; run = r; served = g w r refl }

  guarded-eq :
      (fuel : ℕ) (o : Option String) (t u : Session F R W V J) (v : J.Response)
      (log : SpendLog F.Float)
      → Answers (guarded F R W V J P checks config table dump identity clock q fuel o t) v log u
      → (o ≡ none) × IsRouted t.calls v
  unfolding guarded
  guarded-eq fuel (some reason) t u v log h = cc
  guarded-eq fuel none t u v log h = (
    refl,
    handled t.calls
        (route_and_call F R W J.Response P config identity q.model fuel
          (start F R W V J P checks config table dump identity clock q t))
        t.local v log u
        (λ w r e.
          route_and_call-IsServed F R W J.Response P config identity q.model fuel
            (start F R W V J P checks config table dump identity clock q t) w r e)
        h,
  )

  looked_up-eq :
      (fuel n : ℕ) (found : Option J.Response × Stores F R J) (u : Session F R W V J)
      (v : J.Response) (log : SpendLog F.Float)
      → Answers
          (looked_up F R W V J P checks config table dump identity clock q fuel n found)
          v
          log
          u
      → (checks.before q ≡ none) × IsRouted n v
  unfolding looked_up
  looked_up-eq fuel n (some w, st) u v log h = cc
  looked_up-eq fuel n (none, st) u v log h = guarded-eq fuel (checks.before q) _ u v log h

  budgeted-eq :
      (fuel : ℕ) (out : Try (Option Level)) (t u : Session F R W V J) (v : J.Response)
      (log : SpendLog F.Float)
      → Answers (budgeted F R W V J P checks config table dump identity clock q fuel out t) v log u
      → (out ≡ ok none) × (checks.before q ≡ none) × IsRouted t.calls v
  unfolding budgeted
  budgeted-eq fuel (raise e) t u v log h = cc
  budgeted-eq fuel (ok (some l)) t u v log h = cc
  budgeted-eq fuel (ok none) t u v log h =
      let (before, routed) = looked_up-eq fuel t.calls _ u v log h in (refl, before, routed)

  admit-eq :
      (fuel : ℕ) (out : Try (Outcome R)) (t u : Session F R W V J) (v : J.Response)
      (log : SpendLog F.Float)
      → check_and_increment_rate_limit F R identity clock
          (limits_request F R W V J P checks config table dump identity clock q)
          false
          t.server
        ≡ out
      → Answers (admit F R W V J P checks config table dump identity clock q fuel out t) v log u
      → IsPassed t.calls t.server v
  unfolding admit
  admit-eq fuel (raise e) t u v log limits h = cc
  admit-eq fuel (ok (false, headers, s)) t u v log limits h = cc
  admit-eq fuel (ok (true, headers, s)) t u v log limits h =
      let (budget, before, routed) =
        budgeted-eq fuel (check_budget F R identity F.zero s) _ u v log h in
      record {
        headers = headers;
        limited_server = s;
        within_limits = limits;
        within_budget = budget;
        before = before;
        answer = routed.answer;
        same = routed.same;
        after = routed.after;
        run = routed.run;
        served = routed.served;
      }

  -- A request that is answered with a response and its record was within all limits and budgets, and
  -- the response is a provider's answer to a call that this request made at a deployment that the
  -- router had selected, with the time and the model that the cache write puts into it, if there is
  -- one. The guardrails let the request and that answer pass.
  pub chat_completions-IsPassed :
      (fuel : ℕ) (t u : Session F R W V J) (v : J.Response) (log : SpendLog F.Float)
      → chat_completions F R W V J P checks config table dump identity clock q fuel t
        ≡ some (ok (answered v log, u))
      → IsPassed t.calls t.server v
  unfolding chat_completions
  chat_completions-IsPassed fuel t u v log h = admit-eq fuel _ t u v log refl h
