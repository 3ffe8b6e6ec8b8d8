-- ===== src/Routes/Messages/Requests.antt =====
-- routes/messages.py and providers/anthropic_provider.py: what a request in the format of Anthropic
-- becomes on its way to a deployment of Anthropic.
use commandclaw_gateway.Prelude.{
  String, ◌≡◌, refl, inl, inr, false, Option, none, some, List, [], ◌∷◌, map, ◌==◌, if◌then◌else◌,
  Bool-cases,
}
use commandclaw_gateway.Providers.{
  Values, tool_result, output_text, Content, words, blocks, Printing, Spoken, SpokenRequest, Tool,
}
use commandclaw_gateway.Routes.Messages.{result_messages}
use commandclaw_gateway.Routes.Messages.RoundTrip.{IsJson, Use, block_of, usual}

module _ (V : Values) where
  -- The messages that a conversation with tools consists of: a text of the user or the assistant,
  -- the assistant's calls of tools after a text or none, and the result of one call.
  pub data Turn : Type 0 where
    user_text : String → Turn
    assistant_text : String → Turn
    use_tools : String → Use V → List (Use V) → Turn
    give_result : String → String → Turn

  abbrev pub spoken : Turn → Spoken V
  spoken (user_text s) = record { role = some "user"; content = some (words s) }
  spoken (assistant_text s) = record { role = some "assistant"; content = some (words s) }
  spoken (use_tools lead u uses) = record {
    role = some "assistant";
    content = some (blocks (usual V lead (u ∷ uses)));
  }
  spoken (give_result id output) = record {
    role = some "user";
    content = some (blocks (tool_result (some id) (some (output_text output)) ∷ []));
  }

  result_messages-uses : (uses : List (Use V)) → result_messages V (map (block_of V) uses) ≡ []
  unfolding result_messages
  result_messages-uses [] = refl
  result_messages-uses (u ∷ uses) = result_messages-uses uses

  result_messages-usual :
      (lead : String) (uses : List (Use V)) → result_messages V (usual V lead uses) ≡ []
  unfolding result_messages
  result_messages-usual lead uses = elim (Bool-cases (lead == "")) [
    | inl blank ↦ rw blank (result_messages-uses uses)
    | inr there ↦ rw there (result_messages-uses uses)
  ]

  -- `transformed_body.pop("stream", None)` of `_route_and_call`: a missing key stands for false.
  unfoldable pub without_stream : {F : Type 0} → SpokenRequest V F → SpokenRequest V F
  without_stream body = record body { stream = false }

  module _ (L : IsJson V) (Y : Printing V) where
    -- A system prompt that is a text, where "" stands for none.
    abbrev pub prompt : String → Option (Content V)
    prompt s = if s == "" then none else some (words s)

    -- A tool with all of its keys.
    pub record FullTool : Type 0 where
      pub name : String
      pub description : String
      pub input_schema : V.Value

    abbrev pub tool_of : FullTool → Tool V
    tool_of t = record {
      name = some t.name;
      description = some t.description;
      parameters = some t.input_schema;
    }
