-- ===== src/Routes/Screening.antt =====
-- routes/chat.py with the guardrails of middleware/guardrails.py, through the wrappers of
-- observability/callbacks.py: the checks that Routes.Completions takes. The views are the messages in
-- the dict of a request, and the choices in that of a response.
use commandclaw_gateway.Prelude.{
  ℕ, String, ◌≡◌, refl, ap, ◌∙◌, sym, ◌⊎◌, Bool, true, false, Option, none, some, List, [], ◌==◌,
  ok, Bool-cases, inl, inr,
}
use commandclaw_gateway.Floats.{Floats}
use commandclaw_gateway.Redis.{Redis}
use commandclaw_gateway.Schemas.{IdentityContext}
use commandclaw_gateway.Config.{GatewayConfig}
use commandclaw_gateway.Routing.Strategies.{Pricing}
use commandclaw_gateway.Routing.Router.{World}
use commandclaw_gateway.Middleware.RateLimiter.{Clock}
use commandclaw_gateway.Middleware.Cache.{Json, Responses, parse_cache_control, written_response}
use commandclaw_gateway.Middleware.CostTracker.{SpendLog, Usage}
use commandclaw_gateway.Middleware.Detection.{detect_pii_builtin, detect_injection}
use commandclaw_gateway.Middleware.Patterns.{Characters}
use commandclaw_gateway.Middleware.Guardrails.{
  Outside, Results, extract_text, choice_texts, run_pre_call_guardrails, run_post_call_guardrails,
}
use commandclaw_gateway.Middleware.Guardrails.Strict.{run_guardrails-strict}
use commandclaw_gateway.Providers.{Values, Message, Choice}
use commandclaw_gateway.Providers.Anthropic.{joined_by}
use commandclaw_gateway.Routes.Chat.{Providers}
use commandclaw_gateway.Routes.Completions.{
  Completion, Checks, Session, answered, returned, chat_completions,
}
use commandclaw_gateway.Routes.Completions.Answered.{chat_completions-IsPassed}

-- The reason of a verdict that does not let pass.
unfoldable pub refusal : Bool × String × Results → Option String
refusal (true, reason, results) = none
refusal (false, reason, results) = some reason

refusal-none : (v : Bool × String × Results) → refusal v ≡ none → v.0 ≡ true
unfolding refusal
refusal-none (true, reason, results) h = refl
refusal-none (false, reason, results) h = cc

module _ (F : Floats) (R : Redis) (W : World F R) (V : Json) (J : Responses F) (K : Characters)
    (O : Outside) (X : Values) where
  pub record Contents : Type 0 where
    pub messages : Completion F R W V J → List (Message X)
    pub choices : J.Response → List Choice
    pub usage : J.Response → Option Usage

  -- `run_pre_call_guardrails` and `run_post_call_guardrails` for the identity of a request
  unfoldable pub screening : Contents → IdentityContext F.Float → Checks F R W V J
  unfolding refusal run_pre_call_guardrails run_post_call_guardrails
  screening contents identity = record {
    before = λ q.
        refusal (run_pre_call_guardrails K O X identity.guardrail_policy (contents.messages q)).0;
    after = λ r.
        refusal (run_post_call_guardrails K O X identity.guardrail_policy (contents.choices r));
    usage = contents.usage;
  }

  -- What a cache write puts into a response leaves its choices.
  abbrev pub KeepsChoices : Contents → Type 0
  KeepsChoices contents =
      (now : F.Float) (model : String) (r : J.Response)
      → contents.choices (J.stamp now model r) ≡ contents.choices r

  returned-choices :
      (P : Providers F R W J.Response) (contents : Contents) (checks : Checks F R W V J)
      (config : GatewayConfig F.Float) (table : List (String × Pricing F.Float))
      (dump : SpendLog F.Float → String) (identity : IdentityContext F.Float) (clock : Clock F R)
      (q : Completion F R W V J) (key : Option String) (r : J.Response)
      → KeepsChoices contents
      → contents.choices (returned F R W V J P checks config table dump identity clock q key r)
        ≡ contents.choices r
  unfolding returned written_response
  returned-choices P contents checks config table dump identity clock q none r kept = refl
  returned-choices P contents checks config table dump identity clock q (some key) r kept =
      elim (Bool-cases (parse_cache_control q.cache_metadata).no_store) [
        | inl unstored ↦ rw (unstored, returned) refl
        | inr stored ↦ elim (Bool-cases (config.cache_settings.backend == "none")) [
          | inl off ↦ rw (stored, off, returned) refl
          | inr on ↦ rw (stored, on, returned) (kept clock.now q.model r)
        ]
      ]

  -- Without presidio, a request of a key with the policy "strict" that is answered by a provider
  -- had no match for personal data or an injected prompt in its joined text, and the joined text of
  -- the response is empty or has no match for personal data, if what a cache write puts into a
  -- response leaves its choices.
  pub chat_completions-strict :
      (P : Providers F R W J.Response) (contents : Contents) (config : GatewayConfig F.Float)
      (table : List (String × Pricing F.Float)) (dump : SpendLog F.Float → String)
      (identity : IdentityContext F.Float) (clock : Clock F R) (q : Completion F R W V J) (fuel : ℕ)
      (t u : Session F R W V J) (v : J.Response) (log : SpendLog F.Float)
      → KeepsChoices contents
      → O.analyze ≡ none
      → identity.guardrail_policy ≡ some "strict"
      → chat_completions F R W V J P
          (screening contents identity)
          config
          table
          dump
          identity
          clock
          q
          fuel
          t
        ≡ some (ok (answered v log, u))
      → let asked = extract_text K O X (contents.messages q) in
        let said = joined_by " " (choice_texts K O X (contents.choices v)) in
        (detect_pii_builtin K asked ≡ [])
        × (detect_injection K asked ≡ [])
        × (((said == "") ≡ true) ⊎ (detect_pii_builtin K said ≡ []))
  unfolding screening
  chat_completions-strict P contents config table dump identity clock q fuel t u v log kept
        uninstalled strict done =
      let passed =
        chat_completions-IsPassed F R W V J P (screening contents identity) config table dump
          identity clock q fuel t u v log done in
      let pre = run_pre_call_guardrails K O X in
      let post = run_post_call_guardrails K O X in
      let same : contents.choices v ≡ contents.choices passed.answer =
        ap contents.choices passed.same
        ∙ returned-choices P contents (screening contents identity) config table dump identity clock
            q _ passed.answer kept in
      let before : (pre (some "strict") (contents.messages q)).0.0 ≡ true =
        ap (λ p. (pre p (contents.messages q)).0.0) (sym strict)
        ∙ refusal-none (pre identity.guardrail_policy (contents.messages q)).0 passed.before in
      let after : (post (some "strict") (contents.choices v)).0 ≡ true =
        ap (λ p. (post p (contents.choices v)).0) (sym strict)
        ∙ ap (λ cs. (post identity.guardrail_policy cs).0) same
        ∙ refusal-none (post identity.guardrail_policy (contents.choices passed.answer))
            passed.after in
      let (requests, responses) =
        run_guardrails-strict K O uninstalled X (contents.messages q) (contents.choices v) in
      let (clean, honest) = requests.0 before in (clean, honest, responses.0 after)
