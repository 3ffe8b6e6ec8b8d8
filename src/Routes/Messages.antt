-- ===== src/Routes/Messages.antt =====
-- routes/messages.py: requests and responses in the format of Anthropic, and the events of a stream.
-- The constant fields `type`, `role` and `stop_sequence` of a response are left out.
pub mod RoundTrip
pub mod Requests
pub mod Events
pub mod Handler
use commandclaw_gateway.Prelude.{
  ℕ, zero, suc, ◌+◌, String, Bool, Option, none, some, List, [], ◌∷◌, ◌++◌, ◌==◌, if◌then◌else◌,
  map, is_empty, lookup, drop_chars,
}
use commandclaw_gateway.Auth.VirtualKeys.{text_or}
use commandclaw_gateway.Middleware.Streaming.{pieces}
use commandclaw_gateway.Providers.{
  Values, Block, text_part, tool_use, tool_result, other, ToolOutput, output_text, output_parts,
  Content, null, words, blocks, Spoken, Tool, SpokenRequest, Message, ChatRequest, SpokenResponse,
  ToolCall, several, ChatResponse, Choice, Tokens,
}
use commandclaw_gateway.Providers.Anthropic.{
  newline, joined_by, text_parts, tool_calls_of, joined_text, use_block, plain_tool, as_text,
}

unfoldable pub stop_reason_map : List (String × String)
stop_reason_map = ("stop", "end_turn") ∷ ("length", "max_tokens") ∷ ("tool_calls", "tool_use") ∷ []

-- `stop_reason_map.get(finish_reason, "end_turn")`
unfoldable pub stop_of : String → String
unfolding lookup stop_reason_map
stop_of finish_reason = text_or "end_turn" (lookup finish_reason stop_reason_map)

-- `tc_content`
unfoldable pub output_of : Option ToolOutput → String
unfolding joined_by
output_of none = ""
output_of (some (output_text s)) = s
output_of (some (output_parts ps)) = joined_by " " (map (text_or "") ps)

module _ (V : Values) where
  -- The messages of the role "tool" for the results among the blocks.
  unfoldable pub result_messages : List (Block V) → List (Message V)
  unfolding output_of
  result_messages [] = []
  result_messages (tool_result id output ∷ bs) =
      record {
        role = some "tool";
        content = some (words (output_of output));
        tool_call_id = some (text_or "" id);
        tool_calls = [];
      }
      ∷ result_messages bs
  result_messages (text_part t ∷ bs) = result_messages bs
  result_messages (tool_use i n v ∷ bs) = result_messages bs
  result_messages (other v ∷ bs) = result_messages bs

  -- `None` of a joined text
  content_or_null : Option String → Content V
  content_or_null none = null
  content_or_null (some s) = words s

  abbrev said : String → Content V → List ToolCall → Message V
  said role content calls = record {
    role = some role;
    content = some content;
    tool_call_id = none;
    tool_calls = calls;
  }

  -- `if tool_results: ... elif tool_calls: ... else: ...`
  from_blocks : String → List (Block V) → List (Message V) → List ToolCall → List (Message V)
  unfolding text_parts joined_text joined_by content_or_null
  from_blocks role bs (result ∷ results) calls = result ∷ results
  from_blocks role bs [] (call ∷ calls) =
      said role (content_or_null (joined_text (text_parts V bs))) (call ∷ calls) ∷ []
  from_blocks role bs [] [] = said role (words (joined_by newline (text_parts V bs))) [] ∷ []

  -- The messages that one message becomes; None as content makes none.
  converted : String → Content V → List (Message V)
  unfolding from_blocks result_messages tool_calls_of
  converted role (words s) = said role (words s) [] ∷ []
  converted role (blocks bs) = from_blocks role bs (result_messages bs) (tool_calls_of V bs)
  converted role null = []

  unfoldable pub convert : Spoken V → List (Message V)
  unfolding converted
  convert m = converted (text_or "user" m.role) (text_or (words "") m.content)

  unfoldable pub convert_all : List (Spoken V) → List (Message V)
  unfolding convert
  convert_all [] = []
  convert_all (m ∷ ms) = convert m ++ convert_all ms

  -- `if body.get("system")`
  unfoldable pub system_message : Option (Content V) → List (Message V)
  system_message none = []
  system_message (some null) = []
  system_message (some (words s)) = if s == "" then [] else said "system" (words s) [] ∷ []
  system_message (some (blocks bs)) = if is_empty bs then [] else said "system" (blocks bs) [] ∷ []

  -- `if body.get("max_tokens")`
  unfoldable pub nonzero : Option ℕ → Option ℕ
  nonzero none = none
  nonzero (some zero) = none
  nonzero (some (suc n)) = some (suc n)

  unfoldable pub anthropic_to_openai_request : {F : Type 0} → SpokenRequest V F → ChatRequest V F
  unfolding system_message convert_all nonzero plain_tool
  anthropic_to_openai_request body = record {
    model = some (text_or "" body.model);
    messages = system_message body.system ++ convert_all body.messages;
    max_tokens = nonzero body.max_tokens;
    temperature = body.temperature;
    top_p = body.top_p;
    stop = if is_empty body.stop_sequences then none else some (several body.stop_sequences);
    stream = body.stream;
    metadata = body.metadata;
    tools = map (plain_tool V) body.tools;
  }

  -- `if text: content_blocks.append({"type": "text", "text": text})`
  reply_text : Option String → List (Block V)
  reply_text none = []
  reply_text (some s) = if s == "" then [] else text_part (some s) ∷ []

  unfoldable pub reply_blocks : List Choice → List (Block V)
  unfolding reply_text use_block
  reply_blocks [] = []
  reply_blocks (c ∷ cs) = reply_text c.content ++ map (use_block V) c.tool_calls

  unfoldable pub reply_reason : List Choice → String
  unfolding stop_of
  reply_reason [] = stop_of "stop"
  reply_reason (c ∷ cs) = stop_of (text_or "stop" c.finish_reason)

  unfoldable pub openai_to_anthropic_response : ChatResponse → String → SpokenResponse V
  unfolding reply_blocks reply_reason
  openai_to_anthropic_response r model = record {
    id = some (text_or "msg_gateway" r.id);
    model = some model;
    content = reply_blocks r.choices;
    stop_reason = some (reply_reason r.choices);
    usage = r.usage;
  }

-- The events of a stream: `message_start` with the response less its content, its stop_reason and its
-- output tokens; a block's start with its type and, for a call, the id and the name; texts; a block's
-- stop; `message_delta` with the stop_reason and the output tokens.
pub data Opening : Type 0 where
  text_opening : Opening
  tool_opening : Option String → Option String → Opening

pub data Event : Type 0 where
  message_start : Option String → Option String → ℕ → Event
  content_block_start : ℕ → Opening → Event
  content_block_delta : ℕ → String → Event
  content_block_stop : ℕ → Event
  message_delta : Option String → ℕ → Event
  message_stop : Event
  no_deployment : Event

-- The deltas of a text: `for j in range(0, max(1, len(text)), 20)`, with fuel for the slices that is
-- at least the length of the text.
unfoldable pub text_deltas : ℕ → ℕ → String → List Event
unfolding pieces
text_deltas fuel i s =
    if s == "" then content_block_delta i "" ∷ [] else map (content_block_delta i) (pieces fuel s)

module _ (V : Values) where
  -- The response has no blocks but texts and calls.
  unfoldable pub block_events : ℕ → ℕ → Block V → List Event
  unfolding text_deltas
  block_events fuel i (text_part t) =
      content_block_start i text_opening ∷ text_deltas fuel i (text_or "" t)
      ++ content_block_stop i ∷ []
  block_events fuel i (tool_use id name input) =
      content_block_start i (tool_opening (some (text_or "" id)) (some (text_or "" name)))
      ∷ content_block_stop i
      ∷ []
  block_events fuel i (tool_result id output) = []
  block_events fuel i (other v) = []

  unfoldable pub content_events : ℕ → ℕ → List (Block V) → List Event
  unfolding block_events
  content_events fuel i [] = []
  content_events fuel i (b ∷ bs) = block_events fuel i b ++ content_events fuel (i + 1) bs

  -- `anthropic_stream`, from the result of `_route_and_call`
  unfoldable pub anthropic_stream : ℕ → Option ChatResponse → String → List Event
  unfolding openai_to_anthropic_response content_events
  anthropic_stream fuel none model = no_deployment ∷ []
  anthropic_stream fuel (some v) model =
      let r = openai_to_anthropic_response V v model in
      message_start r.id r.model r.usage.input ∷ content_events fuel 0 r.content
      ++ message_delta r.stop_reason r.usage.output ∷ message_stop ∷ []

-- `rechunk_for_streaming` of middleware/cache.py in the format of Anthropic: nothing for a response
-- without a choice.
unfoldable pub cached_stop : Option String → String
unfolding lookup
cached_stop finish_reason =
    text_or "end_turn"
      (lookup (text_or "stop" finish_reason) (("stop", "end_turn") ∷ ("length", "max_tokens") ∷ []))

unfoldable pub rechunk_anthropic :
    ℕ → List Choice → Option String → Option String → Tokens → List Event
unfolding pieces cached_stop
rechunk_anthropic fuel [] id model usage = []
rechunk_anthropic fuel (c ∷ cs) id model usage =
    message_start (some (text_or "chatcmpl-cached" id)) (some (text_or "unknown" model)) usage.input
      ∷ content_block_start 0 text_opening
      ∷ map (content_block_delta 0) (pieces fuel (text_or "" c.content))
    ++ content_block_stop 0
      ∷ message_delta (some (cached_stop c.finish_reason)) usage.output
      ∷ message_stop
      ∷ []
