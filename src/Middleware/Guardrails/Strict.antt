-- ===== src/Middleware/Guardrails/Strict.antt =====
-- middleware/guardrails.py: what passes under the policies, and what a redaction changes.
use commandclaw_gateway.Prelude.{
  String, ◌≡◌, refl, sym, ◌∙◌, ◌↔◌, inl, inr, true, none, some, List, [], ◌∷◌, ◌⊎◌, ◌==◌, lookup,
  is_empty, Bool-cases,
}
use commandclaw_gateway.Providers.{Values, Message, Choice}
use commandclaw_gateway.Providers.Anthropic.{joined_by}
use commandclaw_gateway.Middleware.Detection.{detect_pii_builtin, detect_injection}
use commandclaw_gateway.Middleware.Patterns.{Characters}
use commandclaw_gateway.Middleware.Guardrails.{
  Outside, Policy, policy, policy_of, guardrail_policies, run_builtin, refused, run_presidio,
  injection_result, verdict_before, verdict_after, extract_text, choice_texts,
  run_pre_call_guardrails, run_post_call_guardrails,
}

is_empty_iff {ℓ} : {A : Type ℓ} (xs : List A) → (is_empty xs ≡ true) ↔ (xs ≡ [])
unfolding is_empty
is_empty_iff [] = (λ e. refl, λ e. refl)
is_empty_iff (x ∷ xs) = (λ e. cc, λ e. cc)

module _ (K : Characters) (O : Outside) (uninstalled : O.analyze ≡ none) where
  passed-builtin :
      (s : String) → (run_presidio K O s "detect").passed ≡ is_empty (detect_pii_builtin K s)
  unfolding run_presidio run_builtin refused
  passed-builtin s = rw uninstalled (elim (Bool-cases (is_empty (detect_pii_builtin K s))) [
    | inl clean ↦ rw clean refl
    | inr dirty ↦ rw dirty refl
  ])

  abbrev strict : Policy K O
  strict = policy K O "all" (some "detect")

  verdict_before-strict :
      (s : String)
      → ((verdict_before K O strict s).0 ≡ true)
        ↔ ((detect_pii_builtin K s ≡ []) × (detect_injection K s ≡ []))
  unfolding verdict_before injection_result
  verdict_before-strict s =
      let (clean, none_found) = is_empty_iff (detect_pii_builtin K s) in
      let (honest, none_tried) = is_empty_iff (detect_injection K s) in
      rw (passed-builtin s) (elim (Bool-cases (is_empty (detect_pii_builtin K s))) [
        | inl ok ↦ rw ok (elim (Bool-cases (is_empty (detect_injection K s))) [
          | inl fine ↦ rw fine (λ e. (clean ok, honest fine), λ h. refl)
          | inr tried ↦ rw tried (λ e. cc, λ h. sym tried ∙ none_tried h.1)
        ])
        | inr found ↦ rw found (λ e. cc, λ h. sym found ∙ none_found h.0)
      ])

  verdict_after-strict :
      (s : String) → ((verdict_after K O strict s).0 ≡ true) ↔ (detect_pii_builtin K s ≡ [])
  unfolding verdict_after
  verdict_after-strict s =
      let (clean, none_found) = is_empty_iff (detect_pii_builtin K s) in
      rw (passed-builtin s) (elim (Bool-cases (is_empty (detect_pii_builtin K s))) [
        | inl ok ↦ rw ok (λ e. clean ok, λ h. refl)
        | inr found ↦ rw found (λ e. cc, λ h. sym found ∙ none_found h)
      ])

  module _ (V : Values) where
    -- Without presidio, the policy "strict" lets exactly those requests pass whose joined text
    -- has no match of a pattern for personal data and none for an injected prompt; and exactly
    -- those responses whose joined text is empty or has no match for personal data.
    pub run_guardrails-strict :
        (messages : List (Message V)) (choices : List Choice)
        → let asked = extract_text K O V messages in
          let said = joined_by " " (choice_texts K O V choices) in
          (((run_pre_call_guardrails K O V (some "strict") messages).0.0 ≡ true)
            ↔ ((detect_pii_builtin K asked ≡ []) × (detect_injection K asked ≡ [])))
          × (((run_post_call_guardrails K O V (some "strict") choices).0 ≡ true)
              ↔ (((said == "") ≡ true) ⊎ (detect_pii_builtin K said ≡ [])))
    unfolding run_pre_call_guardrails run_post_call_guardrails policy_of guardrail_policies lookup
    run_guardrails-strict messages choices =
        let said = joined_by " " (choice_texts K O V choices) in
        (
          verdict_before-strict (extract_text K O V messages),
          elim (Bool-cases (said == "")) [
            | inl silent ↦ rw silent (λ e. inl refl, λ h. refl)
            | inr spoke ↦
                let (clean, none_found) = verdict_after-strict said in
                rw spoke (λ e. inr (clean e), λ h. elim h [ inl e ↦ cc | inr e ↦ none_found e ])
          ],
        )
