-- ===== src/Providers/Anthropic/Stream.antt =====
-- providers/anthropic_provider.py `transform_stream_chunk`: the lines of a stream of Anthropic become
-- chunks in the format of OpenAI. The attributes of the adapter that it sets are the state. `object`
-- and `created` are left out.
pub mod Ids
use commandclaw_gateway.Prelude.{
  ℕ, ◌+◌, String, ◌≡◌, refl, sym, ap, ◌∙◌, inl, inr, Bool, true, false, Option, none, some, List,
  [], ◌∷◌, ◌==◌, if◌then◌else◌, lookup, starts_with, strip, drop_chars, All, Bool-cases,
  Option-cases,
}
use commandclaw_gateway.Schemas.{Deployment}
use commandclaw_gateway.Auth.VirtualKeys.{text_or}
use commandclaw_gateway.Middleware.Streaming.{Chunk}

-- A part of a call of a tool: its start names its id and its function.
pub record ToolDelta : Type 0 where
  pub index : ℕ
  pub id : Option String
  pub name : Option String
  pub arguments : String

-- What the adapter reads of the JSON of a line: the id and the model of `message`, `index`, the
-- fields of `delta`, those of `content_block`, and the counts of a `usage` that is not empty.
pub record Payload : Type 0 where
  pub message_id : Option String
  pub message_model : Option String
  pub index : Option ℕ
  pub delta_type : Option String
  pub delta_text : Option String
  pub partial_json : Option String
  pub stop_reason : Option String
  pub block_type : Option String
  pub block_id : Option String
  pub block_name : Option String
  pub usage : Option (Option ℕ × Option ℕ)

-- `_current_event`, `_stream_id` and `_stream_model`, once they are set.
pub record StreamState : Type 0 where
  pub current_event : Option String
  pub stream_id : Option String
  pub stream_model : Option String

-- What a line becomes: a chunk under the name of its model, or `{"_done": True}`.
pub data Emitted : Type 0 where
  chunk : String → Chunk ToolDelta (ℕ × ℕ) → Emitted
  done : Emitted

abbrev plain_chunk : String → Chunk ToolDelta (ℕ × ℕ)
plain_chunk id = record {
  id = some id;
  has_choice = true;
  content = none;
  tool_calls = [];
  finish_reason = none;
  usage = none;
}

-- `finish_map.get(stop_reason, "stop")`: without the entry for "stop_sequence", which has the default.
unfoldable pub stream_finish : Option String → String
unfolding lookup
stream_finish stop_reason = text_or "stop" (
    lookup (text_or "end_turn" stop_reason)
      (("end_turn", "stop") ∷ ("max_tokens", "length") ∷ ("tool_use", "tool_calls") ∷ []))

abbrev counts_of : Option ℕ × Option ℕ → ℕ × ℕ
counts_of (input, output) = (text_or 0 input, text_or 0 output)

module _ {F : Type 0} (d : Deployment F) (new_id : String) where
  id_of : StreamState → String
  id_of st = text_or "chatcmpl-stream" st.stream_id

  model_of : StreamState → String
  model_of st = text_or d.provider_model st.stream_model

  -- `_stream_id` and `_stream_model` of a stream that starts.
  started : Payload → StreamState → StreamState
  started p st = record st {
    stream_id = some (text_or new_id p.message_id);
    stream_model = some (text_or d.provider_model p.message_model);
  }

  delta_chunk : Payload → StreamState → Option Emitted
  unfolding id_of model_of
  delta_chunk p st =
      if text_or "" p.delta_type == "text_delta"
      then some (
          chunk (model_of st)
            (record (plain_chunk (id_of st)) { content = some (text_or "" p.delta_text) }))
      else if text_or "" p.delta_type == "input_json_delta"
      then some (
          chunk (model_of st) (record (plain_chunk (id_of st)) {
            tool_calls =
                record {
                  index = text_or 0 p.index;
                  id = none;
                  name = none;
                  arguments = text_or "" p.partial_json;
                }
                ∷ [];
          }))
      else none

  start_chunk : Payload → StreamState → Option Emitted
  unfolding id_of model_of
  start_chunk p st =
      if text_or "" p.block_type == "tool_use"
      then some (
          chunk (model_of st) (record (plain_chunk (id_of st)) {
            tool_calls =
                record {
                  index = text_or 0 p.index;
                  id = some (text_or "" p.block_id);
                  name = some (text_or "" p.block_name);
                  arguments = "";
                }
                ∷ [];
          }))
      else none

  finish_chunk : Payload → StreamState → Option Emitted
  unfolding id_of model_of stream_finish
  finish_chunk p st = some (
      chunk (model_of st) (record (plain_chunk (id_of st)) {
        finish_reason = some (stream_finish p.stop_reason);
        usage = elim p.usage [ none ↦ none | some u ↦ some (counts_of u) ];
      }))

  -- A line of data, for the event that the last line of its kind has named.
  unfoldable pub on_data : String → Payload → StreamState → Option Emitted × StreamState
  unfolding started delta_chunk start_chunk finish_chunk id_of model_of
  on_data event p st =
      if event == "message_start"
      then (
        some (chunk (model_of (started p st)) (plain_chunk (id_of (started p st)))),
        started p st,
      )
      else if event == "content_block_delta"
      then (delta_chunk p st, st)
      else if event == "content_block_start"
      then (start_chunk p st, st)
      else if event == "message_delta"
      then (finish_chunk p st, st)
      else if event == "message_stop"
      then (some done, st)
      else (none, st)

  module _ (loads : String → Option Payload) where
    loaded : Option Payload → StreamState → Option Emitted × StreamState
    unfolding on_data
    loaded none st = (none, st)
    loaded (some p) st = on_data (text_or "" st.current_event) p st

    unfoldable pub transform_stream_chunk : String → StreamState → Option Emitted × StreamState
    unfolding loaded
    transform_stream_chunk chunk_line st =
        let line = strip chunk_line in
        if starts_with line "event: "
        then (none, record st { current_event = some (strip (drop_chars 7 line)) })
        else if starts_with line "data: "
        then loaded (loads (drop_chars 6 line)) st
        else (none, st)

    after : Option Emitted → List Emitted → List Emitted
    after none rest = rest
    after (some done) rest = []
    after (some (chunk m c)) rest = chunk m c ∷ rest

    -- The loop of a handler over the lines of a response: it ends at the chunk that says so.
    unfoldable pub transform_stream : List String → StreamState → List Emitted
    unfolding transform_stream_chunk after
    transform_stream [] st = []
    transform_stream (l ∷ ls) st =
        let (out, st') = transform_stream_chunk l st in after out (transform_stream ls st')
