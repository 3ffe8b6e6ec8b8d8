-- ===== src/Middleware/Guardrails/Redacted.antt =====
-- middleware/guardrails.py: what the policy "pii_redact" makes of a request.
use commandclaw_gateway.Prelude.{
  String, ◌≡◌, refl, ◌≢◌, ◌⊎◌, ap, ◌∙◌, inl, inr, true, false, none, some, List, [], ◌∷◌, ◌++◌,
  lookup, is_empty, Bool-cases,
}
use commandclaw_gateway.Providers.{Values, Message, words}
use commandclaw_gateway.Middleware.Detection.{detect_pii_builtin, redact_pii}
use commandclaw_gateway.Middleware.Patterns.{Characters}
use commandclaw_gateway.Middleware.Guardrails.{
  Outside, policy_of, guardrail_policies, run_builtin, run_presidio, verdict_before, extract_text,
  user_text, has_user_text, apply_redaction, redacted_messages, run_pre_call_guardrails,
}

module _ (K : Characters) (O : Outside) (V : Values) where
  has_user_text-there :
      (before after : List (Message V)) (m : Message V)
      → user_text K O V m ≡ true
      → has_user_text K O V (before ++ m ∷ after) ≡ true
  has_user_text-there [] after m here = rw here refl
  has_user_text-there (b ∷ before) after m here =
      rw (has_user_text-there before after m here) (elim (Bool-cases (user_text K O V b)) [
        | inl user ↦ rw user refl
        | inr other ↦ rw other refl
      ])

  apply_redaction-last :
      (s : String) (before after : List (Message V)) (m : Message V)
      → user_text K O V m ≡ true
      → has_user_text K O V after ≡ false
      → apply_redaction K O V s (before ++ m ∷ after)
        ≡ before ++ record m { content = some (words s) } ∷ after
  unfolding apply_redaction
  apply_redaction-last s [] after m here last = rw (here, last) refl
  apply_redaction-last s (b ∷ before) after m here last =
      rw (has_user_text-there before after m here, apply_redaction-last s before after m here last)
        (elim (Bool-cases (user_text K O V b)) [
          | inl user ↦ rw user refl
          | inr other ↦ rw other refl
        ])

  apply_redaction-none :
      (s : String) (ms : List (Message V))
      → has_user_text K O V ms ≡ false
      → apply_redaction K O V s ms ≡ ms
  unfolding apply_redaction
  apply_redaction-none s [] h = refl
  apply_redaction-none s (m ∷ ms) h = elim (Bool-cases (user_text K O V m)) [
    | inl user ↦ absurd (cc (rw user at h))
    | inr other ↦ let rest = apply_redaction-none s ms (rw other at h) in rw (other, rest) refl
  ]

  -- The last message of the user whose content is a text, between the messages before and after it.
  pub record LastText (ms : List (Message V)) : Type 0 where
    pub before : List (Message V)
    pub message : Message V
    pub after : List (Message V)
    pub parts : ms ≡ before ++ message ∷ after
    pub of_user : user_text K O V message ≡ true
    pub last : has_user_text K O V after ≡ false

  LastText-cases : (ms : List (Message V)) → (has_user_text K O V ms ≡ false) ⊎ LastText ms
  LastText-cases [] = inl refl
  LastText-cases (m ∷ ms) = elim (LastText-cases ms) [
    | inr l ↦ inr (record {
      before = m ∷ l.before;
      message = l.message;
      after = l.after;
      parts = ap (λ ns. m ∷ ns) l.parts;
      of_user = l.of_user;
      last = l.last;
    })
    | inl without ↦ elim (Bool-cases (user_text K O V m)) [
      | inl user ↦ inr (record {
        before = [];
        message = m;
        after = ms;
        parts = refl;
        of_user = user;
        last = without;
      })
      | inr other ↦ inl (rw other without)
    ]
  ]

  -- Messages without such a text stay; otherwise it is replaced by `s`, and the others stay.
  abbrev pub Redacts : String → List (Message V) → List (Message V) → Type 0
  Redacts s ms out =
      ((has_user_text K O V ms ≡ false) × (out ≡ ms))
      ⊎ ((l : LastText ms) × (out
            ≡ l.before ++ record l.message { content = some (words s) } ∷ l.after))

  apply_redaction-Redacts :
      (s : String) (ms : List (Message V)) → Redacts s ms (apply_redaction K O V s ms)
  apply_redaction-Redacts s ms = elim (LastText-cases ms) [
    | inl without ↦ inl (without, apply_redaction-none s ms without)
    | inr l ↦ inr (
      l,
      ap (apply_redaction K O V s) l.parts
          ∙ apply_redaction-last s l.before l.after l.message l.of_user l.last,
    )
  ]

  nil_of_is_empty : {A : Type 0} (xs : List A) → is_empty xs ≡ true → xs ≡ []
  unfolding is_empty
  nil_of_is_empty [] h = refl
  nil_of_is_empty (x ∷ xs) h = cc

  ne_nil_of_is_empty : {A : Type 0} (xs : List A) → is_empty xs ≡ false → xs ≢ []
  unfolding is_empty
  ne_nil_of_is_empty [] h = cc
  ne_nil_of_is_empty (x ∷ xs) h = λ e. cc

  run_presidio-builtin :
      O.analyze ≡ none → (s mode : String) → run_presidio K O s mode ≡ run_builtin K O s mode
  unfolding run_presidio
  run_presidio-builtin uninstalled s mode = rw uninstalled refl

  -- Without presidio, the policy "pii_redact" lets each request pass. If nothing is found in its
  -- joined text, its messages stay. Otherwise the last message of the user whose content is a text
  -- gets the joined and redacted text of all messages, and the messages before and after it stay as
  -- they are; where there is no such message, all messages stay.
  pub run_pre_call_guardrails-Redacts :
      (messages : List (Message V))
      → O.analyze ≡ none
      → let asked = extract_text K O V messages in
        let findings = detect_pii_builtin K asked in
        let out = run_pre_call_guardrails K O V (some "pii_redact") messages in
        (out.0.0 ≡ true)
        × (((findings ≡ []) × (out.1 ≡ messages))
            ⊎ ((findings ≢ []) × Redacts (redact_pii asked findings) messages out.1))
  unfolding run_pre_call_guardrails policy_of guardrail_policies lookup verdict_before run_builtin
      redacted_messages
  run_pre_call_guardrails-Redacts messages uninstalled =
      let asked = extract_text K O V messages in
      let findings = detect_pii_builtin K asked in
      rw (run_presidio-builtin uninstalled asked "redact") (elim (Bool-cases (is_empty findings)) [
        | inl clean ↦ rw clean (refl, inl (nil_of_is_empty findings clean, refl))
        | inr dirty ↦ rw dirty (
          refl,
          inr (
            ne_nil_of_is_empty findings dirty,
            apply_redaction-Redacts (redact_pii asked findings) messages,
          ),
        )
      ])
