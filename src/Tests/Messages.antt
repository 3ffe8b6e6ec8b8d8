-- ===== src/Tests/Messages.antt =====
-- Runs of a request in the format of Anthropic.
use commandclaw_gateway.Prelude.{
  ℕ, String, ◌≡◌, refl, inr, true, Option, none, some, List, [], ◌∷◌, map, arith, All, false, ◌==◌,
  if◌then◌else◌, strip, drop_chars, Try, ok, lookup, contains, is_empty, keep_try, keep, insert,
  str, nat,
}
use commandclaw_gateway.Floats.Naturals.{naturals}
use commandclaw_gateway.Redis.Memory.{memory, empty, held}
use commandclaw_gateway.Config.{get_deployments_for_model}
use commandclaw_gateway.Routing.Cooldowns.{is_cooled_down}
use commandclaw_gateway.Routing.Strategies.{filter_by_region, constraint_of}
use commandclaw_gateway.Routing.Router.{
  select_deployment, get_upstream_remaining, team_regions, forbidden,
}
use commandclaw_gateway.Middleware.RateLimiter.{check_and_increment_rate_limit}
use commandclaw_gateway.Auth.Budgets.{check_budget}
use commandclaw_gateway.Providers.{
  Values, Printing, Content, SpokenRequest, SpokenResponse, ChatResponse, Tokens,
}
use commandclaw_gateway.Providers.Anthropic.{transform_response}
use commandclaw_gateway.Providers.Anthropic.Stream.{
  Payload, StreamState, Emitted, chunk, done, transform_stream,
}
use commandclaw_gateway.Providers.Anthropic.Stream.Ids.{HasId, starts_message, transform_stream-ids}
use commandclaw_gateway.Routes.Chat.{route_and_call, attempts}
use commandclaw_gateway.Routes.Messages.{
  openai_to_anthropic_response, anthropic_stream, Event, message_start, content_block_start,
  content_block_delta, content_block_stop, message_delta, message_stop, text_opening,
}
use commandclaw_gateway.Routes.Messages.RoundTrip.{
  IsJson, Use, usual, openai_to_anthropic_response-roundtrip,
}
use commandclaw_gateway.Routes.Messages.Requests.{
  Turn, user_text, assistant_text, use_tools, give_result, spoken, FullTool, tool_of,
}
use commandclaw_gateway.Routes.Messages.Events.{streamed_text, streamed_tools, anthropic_stream_lem}
use commandclaw_gateway.Routes.Messages.Handler.{Views, Sent, Reply, streamed, messages}
use commandclaw_gateway.Routes.Messages.Handler.Guarded.{IsAdmitted, AllBacked, messages-Backed}
use commandclaw_gateway.Tests.{user, config, world, gpt_eu}
use commandclaw_gateway.Routes.Completions.{Session}
use commandclaw_gateway.Tests.Completions.{json, responses, providers, checks, clock, dump, session}

-- Values are their texts.
abbrev values : Values
values = record {
  Value = String;
  empty = "{}";
  dumps = λ v. v;
  loads = λ s. some s;
  text = λ v. none;
}

values-IsJson : IsJson values
values-IsJson = record { loads-dumps = λ v. refl }

abbrev printing : Printing values
printing = record { str = λ c. "repr"; wrapped = λ bs. "blocks" }

abbrev search : Use values
search = record { id = "t1"; name = "search"; input = "{}" }

abbrev tokens : Tokens
tokens = record { input = 9; output = 4; cache_creation = 0; cache_read = 0 }

abbrev spoken_response : String → SpokenResponse values
spoken_response model = record {
  id = some "msg_1";
  model = some model;
  content = usual values "Hi" (search ∷ []);
  stop_reason = some "tool_use";
  usage = tokens;
}

openai_to_anthropic_response-roundtrip_example :
    openai_to_anthropic_response values
      (transform_response values "new" (spoken_response "claude-3") gpt_eu)
      "gpt"
    ≡ spoken_response "gpt"
openai_to_anthropic_response-roundtrip_example =
    openai_to_anthropic_response-roundtrip values values-IsJson "new" "msg_1" "claude-3" "gpt" "Hi"
      "tool_use" (search ∷ []) tokens gpt_eu (inr (inr refl))

abbrev turns : List (Turn values)
turns =
    user_text "Hi" ∷ use_tools "Wait" search [] ∷ give_result "t1" "42" ∷ assistant_text "Done" ∷ []

abbrev tool : FullTool values values-IsJson printing
tool = record { name = "search"; description = "finds"; input_schema = "{}" }

abbrev spoken_request : String → SpokenRequest values ℕ
spoken_request model = record {
  model = some model;
  system = some (Content.words "Be brief");
  messages = map (spoken values) turns;
  max_tokens = some 100;
  temperature = none;
  top_p = some 1;
  stop_sequences = [];
  stream = true;
  metadata = none;
  tools = map (tool_of values values-IsJson printing) (tool ∷ []);
}

abbrev hi : ChatResponse
hi = record {
  id = some "c1";
  model = some "gpt";
  choices = record { content = some "Hi"; tool_calls = []; finish_reason = some "stop" } ∷ [];
  usage = tokens;
}

anthropic_stream_lem_example :
    (streamed_text (anthropic_stream values 2 (some hi) "gpt") ≡ "Hi")
    × (streamed_tools (anthropic_stream values 2 (some hi) "gpt") ≡ [])
anthropic_stream_lem_example = anthropic_stream_lem values 2 hi "gpt" (omega arith)

abbrev views : Views naturals memory world json responses values
views = record {
  fields = λ q. ("model", "gpt") ∷ [];
  chat = λ r. record hi {
    choices = record { content = some r; tool_calls = []; finish_reason = some "stop" } ∷ [];
  };
}

abbrev sent : Sent naturals memory world json responses values
sent = record {
  body = record (spoken_request "gpt") { stream = true };
  estimated_tokens = 10;
  request_id = "r1";
  log_id = "l1";
}

messages-Backed_example :
    AllBacked naturals memory world json responses values providers checks config [] dump user clock
      views sent
      (IsAdmitted naturals memory world json responses values providers checks config [] dump user
        clock views sent empty)
      2
      0
      (messages naturals memory world json responses values providers checks config [] dump user
        clock views sent 5 2 session)
messages-Backed_example =
    messages-Backed naturals memory world json responses values providers checks config [] dump user
      clock views sent 5 2 session

abbrev Outcome : Type 0
Outcome = Option (
    Try (
      Reply naturals memory world json responses values
      × Session naturals memory world json responses))

abbrev outcome : Outcome
outcome =
    messages naturals memory world json responses values providers checks config [] dump user clock
      views sent 5 2 session

abbrev events_of : Outcome → List Event
events_of (some (ok (streamed es l, t))) = es
events_of other = []

hi_is_streamed :
    events_of outcome
    ≡ message_start (some "c1") (some "gpt") 9
      ∷ content_block_start 0 text_opening
      ∷ content_block_delta 0 "hi"
      ∷ content_block_stop 0
      ∷ message_delta (some "end_turn") 4
      ∷ message_stop
      ∷ []
unfolding messages check_and_increment_rate_limit check_budget route_and_call attempts
    select_deployment get_deployments_for_model is_cooled_down held is_empty filter_by_region
    constraint_of contains keep_try get_upstream_remaining team_regions forbidden lookup keep insert
    str nat anthropic_stream
hi_is_streamed = refl

-- Three lines of JSON: the start of two messages, and a text.
abbrev payload : Payload
payload = record {
  message_id = none;
  message_model = none;
  index = none;
  delta_type = some "text_delta";
  delta_text = some "Hi";
  partial_json = none;
  stop_reason = none;
  block_type = none;
  block_id = none;
  block_name = none;
  usage = none;
}

abbrev payload_of : String → Option Payload
payload_of s =
    if s == "A"
    then some (record payload { message_id = some "a" })
    else if s == "B"
    then some (record payload { message_id = some "b" })
    else some payload

abbrev fresh_state : StreamState
fresh_state = record { current_event = none; stream_id = none; stream_model = none }

abbrev in_a : StreamState
in_a = record { current_event = some "ping"; stream_id = some "a"; stream_model = some "claude" }

transform_stream-ids_example : All (HasId "a") (
    transform_stream gpt_eu "new" payload_of
      ("event: content_block_delta" ∷ "data: T" ∷ "event: message_stop" ∷ "data: T" ∷ [])
      in_a)
unfolding strip drop_chars
transform_stream-ids_example =
    transform_stream-ids gpt_eu "new" "a" payload_of
      ("event: content_block_delta" ∷ "data: T" ∷ "event: message_stop" ∷ "data: T" ∷ []) in_a
      (record { id = refl; event = refl })
      (not_start_delta, (not_start_data, (not_start_stop, (not_start_data, tt))))
  where
    not_start_delta : starts_message "event: content_block_delta" ≡ false
    not_start_delta = refl

    not_start_data : starts_message "data: T" ≡ false
    not_start_data = refl

    not_start_stop : starts_message "event: message_stop" ≡ false
    not_start_stop = refl

abbrev id_of_chunk : Emitted → Option String
id_of_chunk done = none
id_of_chunk (chunk m c) = c.id

-- Two streams share the adapter: the text of the first is sent under the id of the second.
first_has_other_id :
    map id_of_chunk (
      transform_stream gpt_eu "new" payload_of
        ("event: message_start" ∷ "data: A" ∷ "event: message_start" ∷ "data: B"
          ∷ "event: content_block_delta" ∷ "data: T" ∷ [])
        fresh_state)
    ≡ some "a" ∷ some "b" ∷ some "b" ∷ []
unfolding transform_stream strip drop_chars
first_has_other_id = refl
