-- ===== src/Tests/Guardrails.antt =====
-- Runs of the guardrails on short texts.
use Prim.Native.Char.{Char, code}
use commandclaw_gateway.Prelude.{
  ℕ, String, ◌≡◌, ◌≢◌, refl, inr, ◌⊎◌, ◌↔◌, Bool, true, ◌&&◌, ◌||◌, Option, none, some, List, [],
  ◌∷◌, arith, ◌==◌, ◌<◌, All, nat_eq, leb, Try, ok, lookup, contains, is_empty, keep_try, keep,
  insert, str, nat,
}
use commandclaw_gateway.Floats.Naturals.{naturals}
use commandclaw_gateway.Redis.Memory.{memory, held}
use commandclaw_gateway.Schemas.{IdentityContext}
use commandclaw_gateway.Config.{get_deployments_for_model}
use commandclaw_gateway.Routing.Cooldowns.{is_cooled_down}
use commandclaw_gateway.Routing.Strategies.{filter_by_region, constraint_of}
use commandclaw_gateway.Routing.Router.{
  select_deployment, get_upstream_remaining, team_regions, forbidden,
}
use commandclaw_gateway.Middleware.RateLimiter.{check_and_increment_rate_limit}
use commandclaw_gateway.Auth.Budgets.{check_budget}
use commandclaw_gateway.Providers.{Values, Content, Message, Choice}
use commandclaw_gateway.Providers.Anthropic.{joined_by}
use commandclaw_gateway.Middleware.Detection.{
  Finding, detect_pii_builtin, detect_injection, redact_pii, detect_each,
}
use commandclaw_gateway.Middleware.Patterns.{Characters, ssn}
use commandclaw_gateway.Middleware.Streaming.RoundTrip.{len}
use commandclaw_gateway.Middleware.Detection.Matches.{detect_each-redacted}
use commandclaw_gateway.Middleware.Detection.Lengths.{least}
use commandclaw_gateway.Middleware.Detection.Redaction.{redact_pii_lem}
use commandclaw_gateway.Middleware.Detection.Erased.{erased}
use commandclaw_gateway.Middleware.Detection.Order.{Within, AllApart}
use commandclaw_gateway.Middleware.Guardrails.{
  Outside, extract_text, choice_texts, run_pre_call_guardrails, run_post_call_guardrails,
}
use commandclaw_gateway.Middleware.Guardrails.Strict.{run_guardrails-strict}
use commandclaw_gateway.Middleware.Guardrails.Redacted.{Redacts, run_pre_call_guardrails-Redacts}
use commandclaw_gateway.Routes.Chat.{route_and_call, attempts}
use commandclaw_gateway.Routes.Completions.{Session, Reply, answered, chat_completions}
use commandclaw_gateway.Routes.Screening.{Contents, screening, chat_completions-strict}
use commandclaw_gateway.Tests.{user, config, world}
use commandclaw_gateway.Tests.Completions.{
  json, responses, providers, clock, completion, dump, session, log,
}

abbrev is_digit : Char → Bool
is_digit c = leb b'0' (code c) && leb (code c) b'9'

abbrev ascii : Characters
ascii = record {
  is_digit = is_digit;
  is_space = λ c. nat_eq (code c) 32;
  is_word = λ c.
      is_digit c
      || (leb b'a' (code c) && leb (code c) b'z')
      || (leb b'A' (code c) && leb (code c) b'Z');
  same = λ c d. nat_eq (code c) (code d);
}

abbrev number : String
number = "id 123-45-6789 of bob@x.org"

abbrev findings : List Finding
findings =
    record { type = "email"; start = 18; stop = 27; text = "bob@x.org" }
    ∷ record { type = "ssn"; start = 3; stop = 14; text = "123-45-6789" }
    ∷ []

number_is_found : detect_pii_builtin ascii number ≡ findings
unfolding detect_pii_builtin
number_is_found = refl

redact_pii_lem_example : redact_pii number findings ≡ erased 0 number findings
redact_pii_lem_example =
    redact_pii_lem number findings ((omega arith, omega arith), ((omega arith, omega arith), tt))
      ((inr (omega arith), tt), (tt, tt))

number_is_erased : erased 0 number findings ≡ "id [SSN_REDACTED] of [EMAIL_REDACTED]"
unfolding redact_pii
number_is_erased = refl

-- The phone number inside of an address is replaced first, and moves the end of the address.
overlap_leaks :
    let text : String = "me.555-123-4567@x.com" in
    redact_pii text (detect_pii_builtin ascii text) ≡ "[EMAIL_REDACTED].com"
unfolding redact_pii detect_pii_builtin
overlap_leaks = refl

abbrev outside : Outside
outside = record {
  analyze = none;
  anonymize = λ s. ok s;
  post = λ url content stage. ok (200, none, none);
  listing = λ types. "types";
}

abbrev values : Values
values = record {
  Value = String;
  empty = "{}";
  dumps = λ v. v;
  loads = λ s. some s;
  text = λ v. none;
}

abbrev message : String → String → Message values
message role s = record {
  role = some role;
  content = some (Content.words s);
  tool_call_id = none;
  tool_calls = [];
}

abbrev choice : String → Choice
choice s = record { content = some s; tool_calls = []; finish_reason = some "stop" }

run_guardrails-strict_example :
    let messages = message "user" number ∷ [] in
    let asked = extract_text ascii outside values messages in
    let said = joined_by " " (choice_texts ascii outside values (choice "hi" ∷ [])) in
    (((run_pre_call_guardrails ascii outside values (some "strict") messages).0.0 ≡ true)
      ↔ ((detect_pii_builtin ascii asked ≡ []) × (detect_injection ascii asked ≡ [])))
    × (((run_post_call_guardrails ascii outside values (some "strict") (choice "hi" ∷ [])).0 ≡ true)
        ↔ (((said == "") ≡ true) ⊎ (detect_pii_builtin ascii said ≡ [])))
run_guardrails-strict_example =
    run_guardrails-strict ascii outside refl values (message "user" number ∷ []) (choice "hi" ∷ [])

abbrev conversation : List (Message values)
conversation = message "user" number ∷ message "assistant" "ok" ∷ message "user" "thanks" ∷ []

-- The number stays in the first message, and is redacted in the copy that replaces the last one.
run_pre_call_guardrails-Redacts_example :
    let asked = extract_text ascii outside values conversation in
    let findings = detect_pii_builtin ascii asked in
    let out = run_pre_call_guardrails ascii outside values (some "pii_redact") conversation in
    (out.0.0 ≡ true)
    × (((findings ≡ []) × (out.1 ≡ conversation))
        ⊎ ((findings ≢ [])
            × Redacts ascii outside values (redact_pii asked findings) conversation out.1))
run_pre_call_guardrails-Redacts_example =
    run_pre_call_guardrails-Redacts ascii outside values conversation refl

number_is_kept :
    (run_pre_call_guardrails ascii outside values (some "pii_redact") conversation).1
    ≡ message "user" number
      ∷ message "assistant" "ok"
      ∷ message "user" "id [SSN_REDACTED] of [EMAIL_REDACTED] ok thanks"
      ∷ []
unfolding run_pre_call_guardrails is_empty
number_is_kept = refl

abbrev contents : Contents naturals memory world json responses ascii outside values
contents = record {
  messages = λ q. message "user" "hello" ∷ [];
  choices = λ r. choice r ∷ [];
  usage = λ r. none;
}

abbrev strict_user : IdentityContext ℕ
strict_user = record user { guardrail_policy = some "strict" }

abbrev Outcome : Type 0
Outcome = Option (
    Try (Reply naturals memory world json responses × Session naturals memory world json responses))

abbrev outcome : Outcome
outcome =
    chat_completions naturals memory world json responses providers
      (screening naturals memory world json responses ascii outside values contents strict_user)
      config [] dump strict_user clock completion 5 session

abbrev ending : Outcome → Session naturals memory world json responses
ending none = session
ending (some (Try.raise e)) = session
ending (some (ok (reply, t))) = t

hello_is_answered : outcome ≡ some (ok (answered "hi" log, ending outcome))
unfolding chat_completions check_and_increment_rate_limit check_budget route_and_call attempts
    select_deployment get_deployments_for_model is_cooled_down held is_empty filter_by_region
    constraint_of contains keep_try get_upstream_remaining team_regions forbidden lookup keep insert
    str nat screening run_pre_call_guardrails run_post_call_guardrails
hello_is_answered = refl

chat_completions-strict_example :
    let asked = extract_text ascii outside values (message "user" "hello" ∷ []) in
    let said = joined_by " " (choice_texts ascii outside values (choice "hi" ∷ [])) in
    (detect_pii_builtin ascii asked ≡ [])
    × (detect_injection ascii asked ≡ [])
    × (((said == "") ≡ true) ⊎ (detect_pii_builtin ascii said ≡ []))
chat_completions-strict_example =
    chat_completions-strict naturals memory world json responses ascii outside values providers
      contents config [] dump strict_user clock completion 5 session (ending outcome) "hi" log
      (λ now model r. refl) refl refl hello_is_answered

ssn_asks : 0 < least (ssn ascii)
unfolding ssn
ssn_asks = omega arith

detect_each-redacted_example :
    let fs = detect_each ascii (("ssn", ssn ascii) ∷ []) number in
    All (Within (len number)) fs × AllApart fs × (redact_pii number fs ≡ erased 0 number fs)
detect_each-redacted_example = detect_each-redacted ascii "ssn" number (ssn ascii) ssn_asks
