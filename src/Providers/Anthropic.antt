-- ===== src/Providers/Anthropic.antt =====
-- providers/anthropic_provider.py: `AnthropicProvider`, which translates requests and responses.
-- `created` and `object` are left out, and a new id for a response without one is a parameter. The
-- events of a stream are in Stream.
pub mod Stream
use commandclaw_gateway.Prelude.{
  ℕ, zero, suc, String, not, ◌&&◌, Option, none, some, List, [], ◌∷◌, ◌++◌, ◌==◌, if◌then◌else◌,
  map, is_empty, lookup, ◌<>◌, rstrip_slash,
}
use commandclaw_gateway.Schemas.{Deployment}
use commandclaw_gateway.Auth.VirtualKeys.{text_or}
use commandclaw_gateway.Providers.{
  Values, Block, text_part, tool_use, tool_result, other, output_text, Content, null, words, blocks,
  Printing, Spoken, Tool, SpokenRequest, Message, ChatRequest, SpokenResponse, ToolCall, Stop,
  single, several, ChatResponse,
}

-- `"\n".join(parts)`
abbrev pub newline : String
newline = "\n"

unfoldable pub joined_by : String → List String → String
joined_by sep [] = ""
joined_by sep (p ∷ []) = p
joined_by sep (p ∷ q ∷ ps) = p <> sep <> joined_by sep (q ∷ ps)

unfoldable pub get_complete_url : {F : Type 0} → Deployment F → String → String
unfolding rstrip_slash
get_complete_url d endpoint =
    (if d.api_base == "" then "https://api.anthropic.com" else rstrip_slash d.api_base)
    <> "/v1/"
    <> endpoint

unfoldable pub finish_reason_map : List (String × String)
finish_reason_map =
    ("end_turn", "stop")
    ∷ ("stop_sequence", "stop")
    ∷ ("max_tokens", "length")
    ∷ ("tool_use", "tool_calls")
    ∷ []

-- `stop_reason` is missing, or a text.
unfoldable pub finish_of : Option String → String
unfolding lookup finish_reason_map
finish_of stop_reason = text_or "stop" (lookup (text_or "end_turn" stop_reason) finish_reason_map)

unfoldable pub stops_of : Option Stop → List String
stops_of none = []
stops_of (some (single s)) = if s == "" then [] else s ∷ []
stops_of (some (several ss)) = ss

-- `request_data.get("max_tokens") or 4096`
unfoldable pub tokens_or_default : Option ℕ → ℕ
tokens_or_default none = 4096
tokens_or_default (some zero) = 4096
tokens_or_default (some (suc n)) = suc n

-- `"\n".join(text_parts) if text_parts else None`
unfoldable pub joined_text : List String → Option String
unfolding joined_by
joined_text [] = none
joined_text (p ∷ ps) = some (joined_by newline (p ∷ ps))

module _ (V : Values) where
  -- `json.loads(func.get("arguments", "{}"))`, and {} where that fails
  unfoldable pub arguments_of : ToolCall → V.Value
  arguments_of tc = text_or V.empty (V.loads (text_or "{}" tc.arguments))

  unfoldable pub use_block : ToolCall → Block V
  unfolding arguments_of
  use_block tc =
      tool_use (some (text_or "" tc.id)) (some (text_or "" tc.name)) (some (arguments_of tc))

  -- `messages.pop(0)` if the first message is that of the system: its content, and the others.
  unfoldable pub take_system : List (Message V) → Option (Content V) × List (Message V)
  take_system [] = (none, [])
  take_system (m ∷ ms) =
      if text_or "" m.role == "system"
      then (some (text_or (words "") m.content), ms)
      else (none, m ∷ ms)

  unfoldable pub plain_tool : Tool V → Tool V
  plain_tool t = record {
    name = some (text_or "" t.name);
    description = some (text_or "" t.description);
    parameters = some (text_or V.empty t.parameters);
  }

  -- The texts and the calls of tools among the blocks of a response.
  unfoldable pub text_parts : List (Block V) → List String
  text_parts [] = []
  text_parts (text_part t ∷ bs) = text_or "" t ∷ text_parts bs
  text_parts (tool_use i n v ∷ bs) = text_parts bs
  text_parts (tool_result i c ∷ bs) = text_parts bs
  text_parts (other v ∷ bs) = text_parts bs

  unfoldable pub call_of : Option String → Option String → Option V.Value → ToolCall
  call_of id name input = record {
    id = some (text_or "" id);
    name = some (text_or "" name);
    arguments = some (V.dumps (text_or V.empty input));
  }

  unfoldable pub tool_calls_of : List (Block V) → List ToolCall
  unfolding call_of
  tool_calls_of [] = []
  tool_calls_of (text_part t ∷ bs) = tool_calls_of bs
  tool_calls_of (tool_use i n v ∷ bs) = call_of i n v ∷ tool_calls_of bs
  tool_calls_of (tool_result i c ∷ bs) = tool_calls_of bs
  tool_calls_of (other v ∷ bs) = tool_calls_of bs

  unfoldable pub transform_response :
      {F : Type 0} → String → SpokenResponse V → Deployment F → ChatResponse
  unfolding text_parts tool_calls_of joined_text finish_of
  transform_response new_id r d = record {
    id = some (text_or new_id r.id);
    model = some (text_or d.provider_model r.model);
    choices =
        record {
          content = joined_text (text_parts r.content);
          tool_calls = tool_calls_of r.content;
          finish_reason = some (finish_of r.stop_reason);
        }
        ∷ [];
    usage = r.usage;
  }

  module _ (Y : Printing V) where
    -- `if content: blocks.append({"type": "text", "text": content})`
    unfoldable pub text_blocks : Content V → List (Block V)
    text_blocks null = []
    text_blocks (words s) = if s == "" then [] else text_part (some s) ∷ []
    text_blocks (blocks bs) = if is_empty bs then [] else other (Y.wrapped bs) ∷ []

    -- `content if isinstance(content, str) else str(content)`
    unfoldable pub as_text : Content V → String
    as_text (words s) = s
    as_text null = Y.str null
    as_text (blocks bs) = Y.str (blocks bs)

    unfoldable pub speak : Message V → Spoken V
    unfolding use_block text_blocks as_text
    speak m =
        let role = text_or "user" m.role in
        let content = text_or (words "") m.content in
        if role == "tool"
        then record {
          role = some "user";
          content = some (
              blocks (
                tool_result (some (text_or "" m.tool_call_id))
                  (some (output_text (as_text content)))
                ∷ []));
        }
        else if role == "assistant" && not (is_empty m.tool_calls)
        then record {
          role = some "assistant";
          content = some (blocks (text_blocks content ++ map use_block m.tool_calls));
        }
        else record { role = some role; content = some content }

    -- `if system: data["system"] = system`
    unfoldable pub system_of : Option (Content V) → Option (Content V)
    unfolding as_text
    system_of none = none
    system_of (some c) = let s = as_text c in if s == "" then none else some (words s)

    unfoldable pub transform_request :
        {F : Type 0} → ChatRequest V F → Deployment F → SpokenRequest V F
    unfolding take_system speak system_of stops_of tokens_or_default plain_tool
    transform_request q d =
        let (system, messages) = take_system q.messages in
        record {
          model = some d.provider_model;
          system = system_of system;
          messages = map speak messages;
          max_tokens = some (tokens_or_default q.max_tokens);
          temperature = q.temperature;
          top_p = q.top_p;
          stop_sequences = stops_of q.stop;
          stream = q.stream;
          metadata = none;
          tools = map plain_tool q.tools;
        }
