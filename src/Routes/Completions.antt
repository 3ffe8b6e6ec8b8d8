-- ===== src/Routes/Completions.antt =====
-- routes/chat.py `chat_completions` and `_handle_non_streaming`: a request passes the limits, the
-- budgets, the cache and the guardrails, is routed, checked again, charged and cached. The
-- guardrails are an interface, which Routes.Screening fills; traces, metrics and alerts are left out.
pub mod Answered
use commandclaw_gateway.Prelude.{
  ℕ, String, Bool, true, false, not, ◌&&◌, Option, none, some, List, [], ◌∷◌, if◌then◌else◌, Try,
  ok, raise,
}
use commandclaw_gateway.Floats.{Floats}
use commandclaw_gateway.Redis.{Redis}
use commandclaw_gateway.Schemas.{IdentityContext}
use commandclaw_gateway.Config.{GatewayConfig}
use commandclaw_gateway.Routing.Strategies.{Pricing}
use commandclaw_gateway.Routing.Router.{World}
use commandclaw_gateway.Middleware.RateLimiter.{Clock, Request, check_and_increment_rate_limit}
use commandclaw_gateway.Middleware.Limits.{Headers, Outcome}
use commandclaw_gateway.Middleware.MemoryCache.{MemoryCache}
use commandclaw_gateway.Middleware.Cache.{
  Json, Responses, Stores, CacheMetadata, CacheControl, parse_cache_control, build_cache_key,
  get_cached_response, set_cached_response, written_response, after_pop,
}
use commandclaw_gateway.Middleware.CostTracker.{
  SpendLog, SpendContext, Usage, extract_usage_from_response, record_spend,
}
use commandclaw_gateway.Auth.Budgets.{Level, check_budget}
use commandclaw_gateway.Routes.Chat.{Providers, Run, route_and_call}

module _ (F : Floats) (R : Redis) (W : World F R) (V : Json) (J : Responses F) where
  -- A request for a completion, with the new id of its log entry.
  pub record Completion : Type 0 where
    pub body : List (String × V.Value)
    pub model : String
    pub estimated_tokens : ℕ
    pub request_id : String
    pub log_id : String
    pub cache_metadata : CacheMetadata
    pub tags : List String

  -- The guardrails' reasons to block, and the usage that a response reports.
  pub record Checks : Type 0 where
    pub before : Completion → Option String
    pub after : J.Response → Option String
    pub usage : J.Response → Option Usage

  -- What the client gets: status 429 with headers, 429, a cached response, 400, 503, or a response
  -- with its record.
  pub data Reply : Type 0 where
    limited : Headers R → Reply
    exhausted : Level → Reply
    cached : J.Response → Reply
    blocked : String → Reply
    unavailable : Reply
    answered : J.Response → SpendLog F.Float → Reply

  -- The state: the server, the cache in memory, and the number of calls to providers.
  pub record Session : Type 0 where
    pub server : R.State
    pub local : MemoryCache F J.Response
    pub calls : ℕ

  abbrev pub Done : Type 0
  Done = Option (Try (Reply × Session))

  module _ (P : Providers F R W J.Response) (checks : Checks) (config : GatewayConfig F.Float)
      (table : List (String × Pricing F.Float)) (dump : SpendLog F.Float → String)
      (identity : IdentityContext F.Float) (clock : Clock F R) (q : Completion) where
    abbrev control : CacheControl
    control = parse_cache_control q.cache_metadata

    unfoldable pub cache_key : Option String
    unfolding build_cache_key parse_cache_control
    cache_key =
        if control.no_cache
        then none
        else some (
            build_cache_key V q.body control.namespace config.cache_settings.cache_scope
              identity.team_id (some identity.key_id))

    -- `if cache_key and not cache_control.get("no_store")`
    written : Option String → J.Response → Stores F R J → Stores F R J
    unfolding set_cached_response parse_cache_control
    written none v st = st
    written (some key) v st =
        if control.no_store
        then st
        else set_cached_response F R J config.cache_settings key v q.model control.ttl clock.now st

    -- The response after that.
    unfoldable pub returned : Option String → J.Response → J.Response
    unfolding written_response parse_cache_control
    returned none v = v
    returned (some key) v =
        if control.no_store
        then v
        else written_response F R J config.cache_settings v q.model clock.now

    abbrev pub spend_context : SpendContext F.Float
    spend_context = record {
      log_id = q.log_id;
      request_id = q.request_id;
      model = q.model;
      cache_hit = false;
      tags = q.tags;
      now = clock.now;
    }

    -- A response that the guardrails let pass is charged and cached.
    charge : J.Response → Run F R W J.Response → MemoryCache F J.Response → Reply × Session
    unfolding written returned extract_usage_from_response record_spend cache_key
    charge v r local =
        let (input_tokens, output_tokens) = extract_usage_from_response (checks.usage v) in
        let (log, server) =
          record_spend F R dump table identity spend_context input_tokens output_tokens r.store in
        let st = written cache_key v (record { server = server; local = local }) in
        (
          answered (returned cache_key v) log,
          record { server = st.server; local = st.local; calls = r.calls },
        )

    checked :
        Option String
        → J.Response
        → Run F R W J.Response
        → MemoryCache F J.Response
        → Reply × Session
    unfolding charge
    checked none v r local = charge v r local
    checked (some reason) v r local =
        (blocked reason, record { server = r.store; local = local; calls = r.calls })

    -- `_handle_non_streaming`, from the result of `_route_and_call`
    unfoldable pub handle_non_streaming :
        Option (Try (Option J.Response × Run F R W J.Response)) → MemoryCache F J.Response → Done
    unfolding checked
    handle_non_streaming none local = none
    handle_non_streaming (some (raise e)) local = some (raise e)
    handle_non_streaming (some (ok (none, r))) local =
        some (ok (unavailable, record { server = r.store; local = local; calls = r.calls }))
    handle_non_streaming (some (ok (some v, r))) local =
        some (ok (checked (checks.after v) v r local))

    abbrev pub start : Session → Run F R W J.Response
    start t = record { store = t.server; calls = t.calls; retries_used = 0; fallbacks_used = [] }

    guarded : ℕ → Option String → Session → Done
    unfolding handle_non_streaming route_and_call
    guarded fuel (some reason) t = some (ok (blocked reason, t))
    guarded fuel none t =
        handle_non_streaming
          (route_and_call F R W J.Response P config identity q.model fuel (start t)) t.local

    looked_up : ℕ → ℕ → Option J.Response × Stores F R J → Done
    unfolding guarded after_pop cache_key
    looked_up fuel calls (some v, st) =
        let local = after_pop F R J config.cache_settings cache_key st.local in
        some
          (ok (cached (J.unstamp v), record { server = st.server; local = local; calls = calls }))
    looked_up fuel calls (none, st) =
        guarded fuel (checks.before q)
          (record { server = st.server; local = st.local; calls = calls })

    unfoldable pub look_up : Option String → Session → Option J.Response × Stores F R J
    unfolding get_cached_response parse_cache_control
    look_up none t = (none, record { server = t.server; local = t.local })
    look_up (some key) t =
        get_cached_response F R J config.cache_settings key control.s_maxage clock.now
          (record { server = t.server; local = t.local })

    budgeted : ℕ → Try (Option Level) → Session → Done
    unfolding looked_up look_up cache_key
    budgeted fuel (raise e) t = some (raise e)
    budgeted fuel (ok (some l)) t = some (ok (exhausted l, t))
    budgeted fuel (ok none) t = looked_up fuel t.calls (look_up cache_key t)

    admit : ℕ → Try (Outcome R) → Session → Done
    unfolding budgeted check_budget
    admit fuel (raise e) t = some (raise e)
    admit fuel (ok (false, headers, s)) t = some (ok (limited headers, record t { server = s }))
    admit fuel (ok (true, headers, s)) t =
        budgeted fuel (check_budget F R identity F.zero s) (record t { server = s })

    abbrev pub limits_request : Request F R
    limits_request = record {
      model = q.model;
      tokens = q.estimated_tokens;
      request_id = q.request_id;
      cache_hit = false;
    }

    -- A request without `stream`; `none` is a loop over the models that has not ended.
    unfoldable pub chat_completions : ℕ → Session → Done
    unfolding admit check_and_increment_rate_limit
    chat_completions fuel t =
        admit fuel (check_and_increment_rate_limit F R identity clock limits_request false t.server)
          t
