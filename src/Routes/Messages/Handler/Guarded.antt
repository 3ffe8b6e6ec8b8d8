-- ===== src/Routes/Messages/Handler/Guarded.antt =====
-- routes/messages.py: what a request has passed that is answered and charged.
use commandclaw_gateway.Prelude.{
  ℕ, String, ◌≡◌, refl, ap, Bool, true, false, Option, none, some, List, Try, ok, raise,
}
use commandclaw_gateway.Floats.{Floats}
use commandclaw_gateway.Redis.{Redis}
use commandclaw_gateway.Schemas.{IdentityContext}
use commandclaw_gateway.Config.{GatewayConfig}
use commandclaw_gateway.Routing.Strategies.{Pricing}
use commandclaw_gateway.Routing.Router.{World}
use commandclaw_gateway.Middleware.RateLimiter.{Clock, check_and_increment_rate_limit}
use commandclaw_gateway.Middleware.Limits.{Headers, Outcome}
use commandclaw_gateway.Middleware.MemoryCache.{MemoryCache}
use commandclaw_gateway.Middleware.Cache.{Json, Responses, Stores}
use commandclaw_gateway.Middleware.CostTracker.{SpendLog}
use commandclaw_gateway.Auth.Budgets.{Level, check_budget}
use commandclaw_gateway.Routes.Chat.{Providers, Run, route_and_call}
use commandclaw_gateway.Routes.Chat.Calls.{IsServed, route_and_call-IsServed}
use commandclaw_gateway.Routes.Completions.{Checks, Session, limits_request, start}
use commandclaw_gateway.Providers.{Values}
use commandclaw_gateway.Routes.Messages.{anthropic_stream, openai_to_anthropic_response}
use commandclaw_gateway.Routes.Messages.Handler.{
  Views, Sent, Reply, limited, exhausted, cached, cached_stream, blocked, unavailable, answered,
  streamed, Done, completion, model_name, charge, checked, respond, stream, reply, routed, guarded,
  from_cache, looked_up, budgeted, admit, messages,
}

module _ (F : Floats) (R : Redis) (W : World F R) (V : Json) (J : Responses F) (X : Values)
    (P : Providers F R W J.Response) (checks : Checks F R W V J) (config : GatewayConfig F.Float)
    (table : List (String × Pricing F.Float)) (dump : SpendLog F.Float → String)
    (identity : IdentityContext F.Float) (clock : Clock F R) (views : Views F R W V J X)
    (m : Sent F R W V J X) where
  -- What a request has passed that reaches the router.
  pub record IsAdmitted (server : R.State) : Type 0 where
    pub headers : Headers R
    pub limited_server : R.State
    pub within_limits :
        check_and_increment_rate_limit F R identity clock
          (limits_request F R W V J P checks config table dump identity clock
            (completion F R W V J X P checks config table dump identity clock views m))
          false
          server
        ≡ ok (true, headers, limited_server)
    pub within_budget : check_budget F R identity F.zero limited_server ≡ ok none
    pub before :
        checks.before (completion F R W V J X P checks config table dump identity clock views m)
        ≡ none

  abbrev model : String
  model = model_name F R W V J X P checks config table dump identity clock views m

  -- A response that is a provider's answer to a call of this request, after `n` earlier calls.
  abbrev pub Served : ℕ → J.Response → Type 0
  Served n v = (r : Run F R W J.Response) × IsServed F R W J.Response P config identity n v r

  module _ (Facts : Type 0) (length n : ℕ) where
    -- A charged reply has passed `Facts` and translates a response of a provider, which the
    -- guardrails have let pass if the client waits for the whole of it.
    abbrev pub Backed : Reply F R W V J X → Type 0
    Backed (answered a log) =
        Facts
        × ((v : J.Response) × (a ≡ openai_to_anthropic_response X (views.chat v) model)
            × (checks.after v ≡ none)
            × Served n v)
    Backed (streamed es (some log)) =
        Facts
        × ((v : J.Response) × (es ≡ anthropic_stream X length (some (views.chat v)) model)
            × Served n v)
    Backed (streamed es none) = Unit
    Backed limited = Unit
    Backed (exhausted l) = Unit
    Backed (cached a) = Unit
    Backed (cached_stream es) = Unit
    Backed (blocked reason) = Unit
    Backed unavailable = Unit

    abbrev pub AllBacked : Done F R W V J X → Type 0
    AllBacked none = Unit
    AllBacked (some (raise e)) = Unit
    AllBacked (some (ok (r, t))) = Backed r

    checked-Backed :
        (facts : Facts) (verdict : Option String) (v : J.Response) (r : Run F R W J.Response)
        (local : MemoryCache F J.Response)
        → checks.after v ≡ verdict
        → Served n v
        → Backed
            (checked F R W V J X P checks config table dump identity clock views m verdict v r
              local).0
    unfolding checked charge
    checked-Backed facts none v r local passed served = (facts, (v, refl, passed, served))
    checked-Backed facts (some reason) v r local passed served = tt

    respond-Backed :
        (facts : Facts) (o : Option J.Response) (r : Run F R W J.Response)
        (local : MemoryCache F J.Response)
        → ((v : J.Response) → o ≡ some v → Served n v)
        → Backed (respond F R W V J X P checks config table dump identity clock views m o r local).0
    unfolding respond
    respond-Backed facts none r local served = tt
    respond-Backed facts (some v) r local served =
        checked-Backed facts (checks.after v) v r local refl (served v refl)

    reply-Backed :
        (facts : Facts) (whole : Bool) (o : Option J.Response) (r : Run F R W J.Response)
        (local : MemoryCache F J.Response)
        → ((v : J.Response) → o ≡ some v → Served n v)
        → Backed
            (reply F R W V J X P checks config table dump identity clock views m length whole
              (o, r)
              local).0
    unfolding reply stream
    reply-Backed facts false o r local served = respond-Backed facts o r local served
    reply-Backed facts true none r local served = tt
    reply-Backed facts true (some v) r local served = (facts, (v, refl, served v refl))

    routed-Backed :
        (facts : Facts) (out : Option (Try (Option J.Response × Run F R W J.Response)))
        (local : MemoryCache F J.Response)
        → ((v : J.Response) (r : Run F R W J.Response) → out ≡ some (ok (some v, r)) → Served n v)
        → AllBacked
            (routed F R W V J X P checks config table dump identity clock views m length out local)
    unfolding routed
    routed-Backed facts none local served = tt
    routed-Backed facts (some (raise e)) local served = tt
    routed-Backed facts (some (ok (o, r))) local served =
        reply-Backed facts m.body.stream o r local
          (λ v e. served v r (ap (λ o. some (ok (o, r))) e))

    from_cache-Backed :
        (whole : Bool) (v : J.Response)
        → Backed (
            from_cache F R W V J X P checks config table dump identity clock views m length whole
              (views.chat v))
    unfolding from_cache
    from_cache-Backed true v = tt
    from_cache-Backed false v = tt

  module _ (Facts : Type 0) (fuel length : ℕ) where
    guarded-Backed :
        (verdict : Option String) (t : Session F R W V J)
        → (verdict ≡ none → Facts)
        → AllBacked Facts length t.calls (
            guarded F R W V J X P checks config table dump identity clock views m fuel length
              verdict t)
    unfolding guarded
    guarded-Backed (some reason) t facts = tt
    guarded-Backed none t facts =
        let q = completion F R W V J X P checks config table dump identity clock views m in
        let run = start F R W V J P checks config table dump identity clock q t in
        routed-Backed Facts length t.calls (facts refl)
          (route_and_call F R W J.Response P config identity model fuel run) t.local
          (λ v r e.
            (r, route_and_call-IsServed F R W J.Response P config identity model fuel run v r e))

    Before : Type 0
    Before =
        checks.before (completion F R W V J X P checks config table dump identity clock views m)
        ≡ none

    looked_up-Backed :
        (n : ℕ) (found : Option J.Response × Stores F R J)
        → (Before → Facts)
        → AllBacked Facts length n (
            looked_up F R W V J X P checks config table dump identity clock views m fuel length n
              found)
    unfolding looked_up Before
    looked_up-Backed n (some v, st) facts =
        from_cache-Backed Facts length n m.body.stream (J.unstamp v)
    looked_up-Backed n (none, st) facts =
        guarded-Backed
          (checks.before (completion F R W V J X P checks config table dump identity clock views m))
          _ facts

    budgeted-Backed :
        (out : Try (Option Level)) (t : Session F R W V J)
        → (out ≡ ok none → Before → Facts)
        → AllBacked Facts length t.calls (
            budgeted F R W V J X P checks config table dump identity clock views m fuel length out
              t)
    unfolding budgeted
    budgeted-Backed (raise e) t facts = tt
    budgeted-Backed (ok (some l)) t facts = tt
    budgeted-Backed (ok none) t facts = looked_up-Backed t.calls _ (facts refl)

  admit-Backed :
      (fuel length : ℕ) (out : Try (Outcome R)) (t : Session F R W V J)
      → check_and_increment_rate_limit F R identity clock
          (limits_request F R W V J P checks config table dump identity clock
            (completion F R W V J X P checks config table dump identity clock views m))
          false
          t.server
        ≡ out
      → AllBacked
          (IsAdmitted t.server)
          length
          t.calls
          (admit F R W V J X P checks config table dump identity clock views m fuel length out t)
  unfolding admit Before
  admit-Backed fuel length (raise e) t limits = tt
  admit-Backed fuel length (ok (false, headers, s)) t limits = tt
  admit-Backed fuel length (ok (true, headers, s)) t limits =
      budgeted-Backed (IsAdmitted t.server) fuel length (check_budget F R identity F.zero s)
        (record t { server = s })
        (λ budget before. record {
          headers = headers;
          limited_server = s;
          within_limits = limits;
          within_budget = budget;
          before = before;
        })

  -- However a request ends: where it is answered or streamed at a charge, it was within all limits
  -- and budgets, the guardrails let it pass, and what is sent translates a provider's answer to a
  -- call that this request made at a deployment that the router had selected. The guardrails have
  -- let that answer pass if it is sent as a whole.
  pub messages-Backed :
      (fuel length : ℕ) (t : Session F R W V J)
      → AllBacked
          (IsAdmitted t.server)
          length
          t.calls
          (messages F R W V J X P checks config table dump identity clock views m fuel length t)
  unfolding messages
  messages-Backed fuel length t = admit-Backed fuel length _ t refl
