-- ===== src/Routes/Messages/RoundTrip.antt =====
-- routes/messages.py and providers/anthropic_provider.py: what a response of Anthropic becomes on its
-- way to a client that speaks the same format, and a request on its way back.
use commandclaw_gateway.Prelude.{
  String, ◌≡◌, refl, ap, ◌⊎◌, inl, inr, some, List, [], ◌∷◌, ◌++◌, map, ◌==◌, if◌then◌else◌,
  Bool-cases, lookup,
}
use commandclaw_gateway.Schemas.{Deployment}
use commandclaw_gateway.Auth.VirtualKeys.{text_or}
use commandclaw_gateway.Providers.{
  Values, Block, text_part, tool_use, tool_result, other, SpokenResponse, Tokens,
}
use commandclaw_gateway.Providers.Anthropic.{
  newline, joined_by, joined_text, text_parts, tool_calls_of, call_of, use_block, arguments_of,
  transform_response, finish_of, finish_reason_map,
}
use commandclaw_gateway.Routes.Messages.{
  openai_to_anthropic_response, reply_blocks, reply_text, reply_reason, stop_of, stop_reason_map,
}

-- `json.loads` reads what `json.dumps` wrote.
pub record IsJson (V : Values) : Type 0 where
  pub loads-dumps : (v : V.Value) → V.loads (V.dumps v) ≡ some v

module _ (V : Values) where
  -- A text of one block, or none where it is empty.
  abbrev pub text_block : String → List (Block V)
  text_block s = if s == "" then [] else text_part (some s) ∷ []

  -- The calls of tools among blocks, with the defaults filled in.
  abbrev pub calls : List (Block V) → List (Block V)
  calls [] = []
  calls (text_part t ∷ bs) = calls bs
  calls (tool_use id name input ∷ bs) =
      tool_use (some (text_or "" id)) (some (text_or "" name)) (some (text_or V.empty input))
      ∷ calls bs
  calls (tool_result id output ∷ bs) = calls bs
  calls (other v ∷ bs) = calls bs

  reply_text-joined_text :
      (ps : List String) → reply_text V (joined_text ps) ≡ text_block (joined_by newline ps)
  unfolding reply_text joined_text joined_by
  reply_text-joined_text [] = refl
  reply_text-joined_text (p ∷ ps) = refl

  module _ (L : IsJson V) where
    pub map-tool_calls_of :
        (bs : List (Block V)) → map (use_block V) (tool_calls_of V bs) ≡ calls bs
    unfolding tool_calls_of call_of use_block arguments_of
    map-tool_calls_of [] = refl
    map-tool_calls_of (text_part t ∷ bs) = map-tool_calls_of bs
    map-tool_calls_of (tool_use id name input ∷ bs) =
        rw (L.loads-dumps (text_or V.empty input), map-tool_calls_of bs) refl
    map-tool_calls_of (tool_result id output ∷ bs) = map-tool_calls_of bs
    map-tool_calls_of (other v ∷ bs) = map-tool_calls_of bs

    -- A client that speaks the format of Anthropic gets the texts of the response in one block,
    -- joined by line breaks, if they are not empty, then its calls of tools in their order, and its
    -- counts of tokens.
    pub openai_to_anthropic_response-content :
        {F : Type 0} (new_id : String) (r : SpokenResponse V) (d : Deployment F) (model : String)
        → let out = openai_to_anthropic_response V (transform_response V new_id r d) model in
          (out.content ≡ text_block (joined_by newline (text_parts V r.content)) ++ calls r.content)
          × (out.usage ≡ r.usage)
    unfolding openai_to_anthropic_response transform_response reply_blocks
    openai_to_anthropic_response-content new_id r d model = (
      rw (reply_text-joined_text (text_parts V r.content), map-tool_calls_of r.content) refl,
      refl,
    )

  -- A call of a tool with all of its keys.
  pub record Use : Type 0 where
    pub id : String
    pub name : String
    pub input : V.Value

  abbrev pub block_of : Use → Block V
  block_of u = tool_use (some u.id) (some u.name) (some u.input)

  -- The content of a usual response: one text that is not empty, or none, and then calls of tools.
  abbrev pub usual : String → List Use → List (Block V)
  usual lead uses = text_block lead ++ map block_of uses

  abbrev pub IsStop : String → Type 0
  IsStop s = (s ≡ "end_turn") ⊎ (s ≡ "max_tokens") ⊎ (s ≡ "tool_use")

  stop_of-finish_of : (s : String) → IsStop s → stop_of (finish_of (some s)) ≡ s
  unfolding stop_of finish_of stop_reason_map finish_reason_map lookup
  stop_of-finish_of s (inl e) = rw e refl
  stop_of-finish_of s (inr (inl e)) = rw e refl
  stop_of-finish_of s (inr (inr e)) = rw e refl

  pub calls-uses : (uses : List Use) → calls (map block_of uses) ≡ map block_of uses
  calls-uses [] = refl
  calls-uses (u ∷ uses) = ap (λ bs. block_of u ∷ bs) (calls-uses uses)

  pub text_parts-uses : (uses : List Use) → text_parts V (map block_of uses) ≡ []
  unfolding text_parts
  text_parts-uses [] = refl
  text_parts-uses (u ∷ uses) = text_parts-uses uses

  usual-kept :
      (lead : String) (uses : List Use)
      → text_block (joined_by newline (text_parts V (usual lead uses))) ++ calls (usual lead uses)
        ≡ usual lead uses
  unfolding text_parts joined_by
  usual-kept lead uses = elim (Bool-cases (lead == "")) [
    | inl blank ↦ rw (blank, text_parts-uses uses, calls-uses uses) refl
    | inr there ↦ rw (there, text_parts-uses uses, there, calls-uses uses) refl
  ]

  -- A usual response of Anthropic that stopped for a reason that both formats have is returned as
  -- it was to a client that speaks the same format, with the model that the client asked for.
  pub openai_to_anthropic_response-roundtrip :
      (L : IsJson V) {F : Type 0} (new_id id served model lead stop : String) (uses : List Use)
      (usage : Tokens) (d : Deployment F)
      → IsStop stop
      → let r : SpokenResponse V = record {
        id = some id;
        model = some served;
        content = usual lead uses;
        stop_reason = some stop;
        usage = usage;
      } in
        openai_to_anthropic_response V (transform_response V new_id r d) model
        ≡ record r { model = some model }
  unfolding openai_to_anthropic_response transform_response reply_blocks reply_reason
  openai_to_anthropic_response-roundtrip L new_id id served model lead stop uses usage d known =
      rw
        (
          reply_text-joined_text (text_parts V (usual lead uses)),
          map-tool_calls_of L (usual lead uses),
          usual-kept lead uses,
          stop_of-finish_of stop known,
        )
        refl
