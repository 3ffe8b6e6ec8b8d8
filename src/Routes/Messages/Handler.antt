-- ===== src/Routes/Messages/Handler.antt =====
-- routes/messages.py `messages`: a request in the format of Anthropic passes the parts that a request
-- for a completion passes, and is answered with a response or a stream. Metrics and the headers of the
-- limits are left out; the views are what the dicts of a request and a response hold.
pub mod Guarded
use commandclaw_gateway.Prelude.{
  ℕ, String, Bool, true, false, not, Option, none, some, List, [], ◌∷◌, if◌then◌else◌, Try, ok,
  raise,
}
use commandclaw_gateway.Floats.{Floats}
use commandclaw_gateway.Redis.{Redis}
use commandclaw_gateway.Schemas.{IdentityContext}
use commandclaw_gateway.Config.{GatewayConfig}
use commandclaw_gateway.Routing.Strategies.{Pricing}
use commandclaw_gateway.Routing.Router.{World}
use commandclaw_gateway.Auth.VirtualKeys.{text_or}
use commandclaw_gateway.Middleware.RateLimiter.{Clock, check_and_increment_rate_limit}
use commandclaw_gateway.Middleware.Limits.{Outcome}
use commandclaw_gateway.Middleware.MemoryCache.{MemoryCache}
use commandclaw_gateway.Middleware.Cache.{
  Json, Responses, Stores, CacheMetadata, parse_cache_control, set_cached_response, after_pop,
}
use commandclaw_gateway.Middleware.CostTracker.{SpendLog, extract_usage_from_response, record_spend}
use commandclaw_gateway.Auth.Budgets.{Level, check_budget}
use commandclaw_gateway.Routes.Chat.{Providers, Run, route_and_call}
use commandclaw_gateway.Routes.Completions.{
  Completion, Checks, Session, cache_key, look_up, limits_request, spend_context, start,
}
use commandclaw_gateway.Providers.{
  Values, SpokenRequest, ChatRequest, SpokenResponse, ChatResponse, RequestMetadata,
}
use commandclaw_gateway.Routes.Messages.{
  Event, anthropic_to_openai_request, openai_to_anthropic_response, anthropic_stream,
  rechunk_anthropic,
}

-- A request without `metadata` has no tags, and says nothing to the cache.
abbrev cache_of : Option RequestMetadata → CacheMetadata
cache_of none = record {
  cache_control = none;
  cache_ttl = none;
  cache_s_maxage = none;
  cache_namespace = none;
}
cache_of (some m) = m.cache

abbrev tags_of : Option RequestMetadata → List String
tags_of none = []
tags_of (some m) = m.tags

module _ (F : Floats) (R : Redis) (W : World F R) (V : Json) (J : Responses F) (X : Values) where
  -- The dict of a request, as the key of the cache reads it, and the fields of a response.
  pub record Views : Type 0 where
    pub fields : ChatRequest X F.Float → List (String × V.Value)
    pub chat : J.Response → ChatResponse

  -- A request, with the tokens counted for it and the new id of its log entry.
  pub record Sent : Type 0 where
    pub body : SpokenRequest X F.Float
    pub estimated_tokens : ℕ
    pub request_id : String
    pub log_id : String

  -- What the client gets: status 429 for a limit or for a budget, a cached response or its stream,
  -- 400, 503, a response with its record, or a stream, with a record where a deployment answered.
  pub data Reply : Type 0 where
    limited : Reply
    exhausted : Level → Reply
    cached : SpokenResponse X → Reply
    cached_stream : List Event → Reply
    blocked : String → Reply
    unavailable : Reply
    answered : SpokenResponse X → SpendLog F.Float → Reply
    streamed : List Event → Option (SpendLog F.Float) → Reply

  abbrev pub Done : Type 0
  Done = Option (Try (Reply × Session F R W V J))

  module _ (P : Providers F R W J.Response) (checks : Checks F R W V J)
      (config : GatewayConfig F.Float) (table : List (String × Pricing F.Float))
      (dump : SpendLog F.Float → String) (identity : IdentityContext F.Float) (clock : Clock F R)
      (views : Views) (m : Sent) where
    abbrev pub openai_body : ChatRequest X F.Float
    openai_body = anthropic_to_openai_request X m.body

    abbrev pub model_name : String
    model_name = text_or "" m.body.model

    abbrev pub completion : Completion F R W V J
    completion = record {
      body = views.fields openai_body;
      model = model_name;
      estimated_tokens = m.estimated_tokens;
      request_id = m.request_id;
      log_id = m.log_id;
      cache_metadata = cache_of m.body.metadata;
      tags = tags_of m.body.metadata;
    }

    -- `extract_usage_from_response` and `record_spend`
    spend : J.Response → R.State → SpendLog F.Float × R.State
    unfolding extract_usage_from_response record_spend
    spend v s =
        let (input_tokens, output_tokens) = extract_usage_from_response (checks.usage v) in
        record_spend F R dump table identity
          (spend_context F R W V J P checks config table dump identity clock completion)
          input_tokens output_tokens s

    -- `if cache_key and not cache_control.get("no_store")`: without a time to live of the request.
    written : Option String → J.Response → Stores F R J → Stores F R J
    unfolding set_cached_response parse_cache_control
    written none v st = st
    written (some key) v st =
        if (parse_cache_control completion.cache_metadata).no_store
        then st
        else set_cached_response F R J config.cache_settings key v model_name none clock.now st

    -- A response that the guardrails let pass is charged, cached and translated.
    charge :
        J.Response → Run F R W J.Response → MemoryCache F J.Response → Reply × Session F R W V J
    unfolding written spend cache_key openai_to_anthropic_response
    charge v r local =
        let (log, server) = spend v r.store in
        let key = cache_key F R W V J P checks config table dump identity clock completion in
        let st = written key v (record { server = server; local = local }) in
        (
          answered (openai_to_anthropic_response X (views.chat v) model_name) log,
          record { server = st.server; local = st.local; calls = r.calls },
        )

    checked :
        Option String
        → J.Response
        → Run F R W J.Response
        → MemoryCache F J.Response
        → Reply × Session F R W V J
    unfolding charge
    checked none v r local = charge v r local
    checked (some reason) v r local =
        (blocked reason, record { server = r.store; local = local; calls = r.calls })

    -- From the result of `_route_and_call`, for a client that waits for the whole response.
    unfoldable pub respond :
        Option J.Response
        → Run F R W J.Response
        → MemoryCache F J.Response
        → Reply × Session F R W V J
    unfolding checked
    respond none r local =
        (unavailable, record { server = r.store; local = local; calls = r.calls })
    respond (some v) r local = checked (checks.after v) v r local

    -- For a client of a stream: the events are sent, and then the response is charged.
    unfoldable pub stream :
        ℕ
        → Option J.Response
        → Run F R W J.Response
        → MemoryCache F J.Response
        → Reply × Session F R W V J
    unfolding spend anthropic_stream
    stream length none r local = (
      streamed (anthropic_stream X length none model_name) none,
      record { server = r.store; local = local; calls = r.calls },
    )
    stream length (some v) r local =
        let (log, server) = spend v r.store in
        (
          streamed (anthropic_stream X length (some (views.chat v)) model_name) (some log),
          record { server = server; local = local; calls = r.calls },
        )

    reply :
        ℕ
        → Bool
        → Option J.Response × Run F R W J.Response
        → MemoryCache F J.Response
        → Reply × Session F R W V J
    unfolding respond stream
    reply length false (o, r) local = respond o r local
    reply length true (o, r) local = stream length o r local

    unfoldable pub routed :
        ℕ
        → Option (Try (Option J.Response × Run F R W J.Response))
        → MemoryCache F J.Response
        → Done
    unfolding reply
    routed length none local = none
    routed length (some (raise e)) local = some (raise e)
    routed length (some (ok out)) local = some (ok (reply length m.body.stream out local))

    guarded : ℕ → ℕ → Option String → Session F R W V J → Done
    unfolding routed route_and_call
    guarded fuel length (some reason) t = some (ok (blocked reason, t))
    guarded fuel length none t =
        routed length
          (route_and_call F R W J.Response P config identity model_name fuel
            (start F R W V J P checks config table dump identity clock completion t))
          t.local

    from_cache : ℕ → Bool → ChatResponse → Reply
    unfolding rechunk_anthropic openai_to_anthropic_response
    from_cache length true v =
        cached_stream (rechunk_anthropic length v.choices v.id v.model v.usage)
    from_cache length false v = cached (openai_to_anthropic_response X v model_name)

    looked_up : ℕ → ℕ → ℕ → Option J.Response × Stores F R J → Done
    unfolding guarded from_cache after_pop cache_key
    looked_up fuel length calls (some v, st) =
        let key = cache_key F R W V J P checks config table dump identity clock completion in
        some (
          ok (
            from_cache length m.body.stream (views.chat (J.unstamp v)),
            record {
              server = st.server;
              local = after_pop F R J config.cache_settings key st.local;
              calls = calls;
            },
          ))
    looked_up fuel length calls (none, st) =
        guarded fuel length (checks.before completion)
          (record { server = st.server; local = st.local; calls = calls })

    budgeted : ℕ → ℕ → Try (Option Level) → Session F R W V J → Done
    unfolding looked_up look_up cache_key
    budgeted fuel length (raise e) t = some (raise e)
    budgeted fuel length (ok (some l)) t = some (ok (exhausted l, t))
    budgeted fuel length (ok none) t =
        let key = cache_key F R W V J P checks config table dump identity clock completion in
        looked_up fuel length t.calls
          (look_up F R W V J P checks config table dump identity clock completion key t)

    admit : ℕ → ℕ → Try (Outcome R) → Session F R W V J → Done
    unfolding budgeted check_budget
    admit fuel length (raise e) t = some (raise e)
    admit fuel length (ok (false, headers, s)) t = some (ok (limited, record t { server = s }))
    admit fuel length (ok (true, headers, s)) t =
        budgeted fuel length (check_budget F R identity F.zero s) (record t { server = s })

    -- `none` is a loop over the models that has not ended; `length` is the fuel for the slices of a
    -- streamed text.
    unfoldable pub messages : ℕ → ℕ → Session F R W V J → Done
    unfolding admit check_and_increment_rate_limit
    messages fuel length t =
        admit fuel length
          (check_and_increment_rate_limit F R identity clock
            (limits_request F R W V J P checks config table dump identity clock completion) false
            t.server)
          t
