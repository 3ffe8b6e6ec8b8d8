-- ===== src/Middleware/Guardrails.antt =====
-- middleware/guardrails.py: the policies, and the checks of a request and of a response. Presidio, a
-- guardrail service and the order of a set are parameters; a failure of theirs lets the text pass.
-- The details of a result are left out, as is logging.
pub mod Strict
pub mod Redacted
use commandclaw_gateway.Prelude.{
  ℕ, String, Bool, true, false, not, ◌&&◌, ◌||◌, Option, none, some, List, [], ◌∷◌, ◌++◌, ◌==◌,
  nat_eq, if◌then◌else◌, lookup, map, is_empty, truthy, ◌<>◌, Try, ok, raise, ◌>>=◌,
}
use commandclaw_gateway.Auth.VirtualKeys.{text_or}
use commandclaw_gateway.Providers.{
  Values, Block, text_part, tool_use, tool_result, other, Content, null, words, blocks, Message,
  Choice,
}
use commandclaw_gateway.Providers.Anthropic.{joined_by}
use commandclaw_gateway.Middleware.Detection.{
  Finding, detect_pii_builtin, redact_pii, detect_injection,
}
use commandclaw_gateway.Middleware.Patterns.{Characters}

-- `GuardrailResult`, less its details.
pub record GuardrailResult : Type 0 where
  pub passed : Bool
  pub reason : String
  pub redacted : Option String
  pub guardrail_name : String

-- What stands in the results of a call: the guardrail, and whether it passed.
abbrev pub Results : Type 0
Results = List (String × Bool)

-- Outside of the program: presidio, where it is installed, with the entities whose score is above
-- 0.7 and whether there were any at all; its anonymizer; a guardrail service with the status and, for
-- status 200, the fields `passed` and `reason`; and `", ".join(set(...))`.
pub record Outside : Type 0 where
  pub analyze : Option (String → Try (List String))
  pub anonymize : String → Try String
  pub post : String → String → String → Try (ℕ × Option Bool × Option String)
  pub listing : List String → String

abbrev passed_by : String → GuardrailResult
passed_by name = record { passed = true; reason = ""; redacted = none; guardrail_name = name }

module _ (K : Characters) (O : Outside) where
  refused : String → List String → GuardrailResult
  refused name types = record {
    passed = false;
    reason = "PII detected: " <> O.listing types;
    redacted = none;
    guardrail_name = name;
  }

  abbrev redacted_by : String → String → GuardrailResult
  redacted_by name redacted = record {
    passed = true;
    reason = "";
    redacted = some redacted;
    guardrail_name = name;
  }

  -- The verdict on the types of what was found; a redacted text may fail.
  abbrev judged : String → String → List String → Try String → Try GuardrailResult
  judged name mode [] redacted = ok (passed_by name)
  judged name mode (t ∷ ts) redacted =
      if mode == "redact"
      then redacted >>= (λ s. ok (redacted_by name s))
      else ok (refused name (t ∷ ts))

  -- `_detect_pii_builtin` and what follows it
  unfoldable pub run_builtin : String → String → GuardrailResult
  unfolding detect_pii_builtin redact_pii refused
  run_builtin text mode =
      let findings = detect_pii_builtin K text in
      if is_empty findings
      then passed_by "pii_builtin"
      else if mode == "redact"
      then redacted_by "pii_builtin" (redact_pii text findings)
      else refused "pii_builtin" (map (λ f. f.type) findings)

  -- `except Exception`
  abbrev caught : String → Try GuardrailResult → GuardrailResult
  caught name (ok r) = r
  caught name (raise e) = passed_by name

  unfoldable pub run_presidio : String → String → GuardrailResult
  unfolding run_builtin refused
  run_presidio text mode = elim O.analyze [
    | none ↦ run_builtin text mode
    | some analyze ↦
        caught "pii_error"
          (analyze text >>= (λ types. judged "presidio" mode types (O.anonymize text)))
  ]

  answered : ℕ × Option Bool × Option String → GuardrailResult
  answered (status, passed, reason) =
      if nat_eq status 200
      then record {
        passed = text_or true passed;
        reason = text_or "Blocked by guardrail" reason;
        redacted = none;
        guardrail_name = "generic_api";
      }
      else passed_by "generic_api"

  unfoldable pub run_generic_guardrail : String → String → String → GuardrailResult
  unfolding answered
  run_generic_guardrail content url stage =
      caught "generic_api_error" (O.post url content stage >>= (λ r. ok (answered r)))

  -- A policy of `GUARDRAIL_POLICIES`.
  pub record Policy : Type 0 where
    pub type : String
    pub mode : Option String
    pub api_url : Option String

  abbrev policy : String → Option String → Policy
  policy type mode = record { type = type; mode = mode; api_url = none }

  unfoldable pub guardrail_policies : List (String × Policy)
  guardrail_policies =
      ("pii_detect", policy "presidio" (some "detect"))
      ∷ ("pii_redact", policy "presidio" (some "redact"))
      ∷ ("injection_detect", policy "injection" none)
      ∷ ("strict", policy "all" (some "detect"))
      ∷ []

  -- `GUARDRAIL_POLICIES.get(policy_name, {})`
  unfoldable pub policy_of : String → Policy
  unfolding lookup guardrail_policies
  policy_of name = text_or (policy "" none) (lookup name guardrail_policies)

  -- The rest of a call, after a guardrail that the type of the policy asks for or not.
  abbrev and_then :
      Bool
      → GuardrailResult
      → Results
      → (Results → Bool × String × Results)
      → Bool × String × Results
  and_then false r results rest = rest results
  and_then true r results rest =
      let results' = results ++ (r.guardrail_name, r.passed) ∷ [] in
      if r.passed then rest results' else (false, r.reason, results')

  abbrev asks_presidio : Policy → Bool
  asks_presidio p = p.type == "presidio" || p.type == "all"

  abbrev asks_injection : Policy → Bool
  asks_injection p = p.type == "injection" || p.type == "all"

  injection_result : String → GuardrailResult
  unfolding detect_injection
  injection_result text = record {
    passed = is_empty (detect_injection K text);
    reason = "Potential prompt injection detected";
    redacted = none;
    guardrail_name = "injection_detect";
  }

  -- `if generic_url: ...`, at the end of both calls
  abbrev generic : Policy → String → String → Results → Bool × String × Results
  generic p text stage results =
      and_then (truthy p.api_url) (run_generic_guardrail text (text_or "" p.api_url) stage) results
        (λ results. (true, "", results))

  unfoldable pub verdict_before : Policy → String → Bool × String × Results
  unfolding run_presidio injection_result run_generic_guardrail
  verdict_before p text =
      and_then (asks_presidio p) (run_presidio text (text_or "detect" p.mode)) [] (λ results.
        and_then (asks_injection p) (injection_result text) results (generic p text "pre"))

  unfoldable pub verdict_after : Policy → String → Bool × String × Results
  unfolding run_presidio run_generic_guardrail
  verdict_after p text =
      and_then (asks_presidio p) (run_presidio text (text_or "detect" p.mode)) []
        (generic p text "post")

  module _ (V : Values) where
    -- The texts of the blocks of a message: those with a `text` that is not empty, which calls of
    -- tools and results do not have.
    block_texts : List (Block V) → List String
    block_texts [] = []
    block_texts (text_part t ∷ bs) =
        let rest = block_texts bs in if truthy t then text_or "" t ∷ rest else rest
    block_texts (tool_use i n v ∷ bs) = block_texts bs
    block_texts (tool_result i o ∷ bs) = block_texts bs
    block_texts (other v ∷ bs) =
        let rest = block_texts bs in
        if truthy (V.text v) then text_or "" (V.text v) ∷ rest else rest

    message_texts : Content V → List String
    unfolding block_texts
    message_texts null = []
    message_texts (words s) = s ∷ []
    message_texts (blocks bs) = block_texts bs

    texts_of : List (Message V) → List String
    unfolding message_texts
    texts_of [] = []
    texts_of (m ∷ ms) = message_texts (text_or (words "") m.content) ++ texts_of ms

    unfoldable pub extract_text : List (Message V) → String
    unfolding texts_of joined_by
    extract_text messages = joined_by " " (texts_of messages)

    abbrev is_text : Option (Content V) → Bool
    is_text none = false
    is_text (some null) = false
    is_text (some (words s)) = true
    is_text (some (blocks bs)) = false

    -- A message of the user whose content is a text.
    abbrev pub user_text : Message V → Bool
    user_text m = text_or "" m.role == "user" && is_text m.content

    abbrev pub has_user_text : List (Message V) → Bool
    has_user_text [] = false
    has_user_text (m ∷ ms) = user_text m || has_user_text ms

    -- The last of them gets the redacted text.
    unfoldable pub apply_redaction : String → List (Message V) → List (Message V)
    apply_redaction s [] = []
    apply_redaction s (m ∷ ms) =
        let rest = apply_redaction s ms in
        if user_text m && not (has_user_text ms)
        then record m { content = some (words s) } ∷ ms
        else m ∷ rest

    unfoldable pub redacted_messages :
        Policy → List (Message V) → GuardrailResult → List (Message V)
    unfolding apply_redaction
    redacted_messages p messages r =
        if asks_presidio p && r.passed && text_or "detect" p.mode == "redact"
        then elim r.redacted [ none ↦ messages | some s ↦ apply_redaction s messages ]
        else messages

    -- `allowed`, `reason` and `results`, and the messages of the request afterwards.
    unfoldable pub run_pre_call_guardrails :
        Option String → List (Message V) → (Bool × String × Results) × List (Message V)
    unfolding extract_text verdict_before redacted_messages run_presidio policy_of
    run_pre_call_guardrails guardrail_policy messages =
        if truthy guardrail_policy
        then (let p = policy_of (text_or "" guardrail_policy) in
            let text = extract_text messages in
            (
              verdict_before p text,
              redacted_messages p messages (run_presidio text (text_or "detect" p.mode)),
            ))
        else ((true, "", []), messages)

    unfoldable pub choice_texts : List Choice → List String
    choice_texts [] = []
    choice_texts (c ∷ cs) =
        let rest = choice_texts cs in if truthy c.content then text_or "" c.content ∷ rest else rest

    unfoldable pub run_post_call_guardrails : Option String → List Choice → Bool × String × Results
    unfolding choice_texts verdict_after policy_of joined_by
    run_post_call_guardrails guardrail_policy choices =
        let text = joined_by " " (choice_texts choices) in
        if truthy guardrail_policy && not (text == "")
        then verdict_after (policy_of (text_or "" guardrail_policy)) text
        else (true, "", [])
