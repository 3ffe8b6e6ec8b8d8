-- ===== src/Routes/Messages/Events.antt =====
-- routes/messages.py: the events that a streaming client of the Anthropic format receives.
use package.text.Mathlib.TextLemmas.{append-nil, append_assoc, nil-append}
use mathlib.Core.List.{append-nil as List_append-nil, append_assoc as List_append_assoc}
use commandclaw_gateway.Prelude.{
  ℕ, ◌+◌, ◌≤◌, String, ◌≡◌, refl, sym, ap, ◌∙◌, inl, inr, Option, none, some, List, [], ◌∷◌, ◌++◌,
  ◌<>◌, map, ◌==◌, Bool-cases, eq_iff,
}
use commandclaw_gateway.Auth.VirtualKeys.{text_or}
use commandclaw_gateway.Middleware.Streaming.{pieces}
use commandclaw_gateway.Middleware.Streaming.RoundTrip.{len, joined, joined-pieces}
use commandclaw_gateway.Providers.{Values, ChatResponse, Choice, ToolCall}
use commandclaw_gateway.Providers.Anthropic.{use_block}
use commandclaw_gateway.Routes.Messages.{
  Event, content_block_start, content_block_delta, content_block_stop, message_delta, message_stop,
  Opening, text_opening, tool_opening, text_deltas, block_events, content_events, anthropic_stream,
  openai_to_anthropic_response, reply_blocks, reply_text,
}

-- What a client assembles: the texts of the deltas, and the calls of tools that are opened.
abbrev pub text_of : Event → String
text_of e = elim e [ content_block_delta i s ↦ s | _ ↦ "" ]

abbrev opened : Opening → List (Option String × Option String)
opened text_opening = []
opened (tool_opening id name) = (id, name) ∷ []

abbrev pub tools_of : Event → List (Option String × Option String)
tools_of e = elim e [ content_block_start i o ↦ opened o | _ ↦ [] ]

abbrev pub streamed_text : List Event → String
streamed_text [] = ""
streamed_text (e ∷ es) = text_of e <> streamed_text es

abbrev pub streamed_tools : List Event → List (Option String × Option String)
streamed_tools [] = []
streamed_tools (e ∷ es) = tools_of e ++ streamed_tools es

streamed_text-append :
    (ds es : List Event) → streamed_text (ds ++ es) ≡ streamed_text ds <> streamed_text es
streamed_text-append [] es = sym (nil-append (streamed_text es))
streamed_text-append (d ∷ ds) es =
    ap (λ s. text_of d <> s) (streamed_text-append ds es)
    ∙ sym (append_assoc (text_of d) (streamed_text ds) (streamed_text es))

streamed_tools-append :
    (ds es : List Event) → streamed_tools (ds ++ es) ≡ streamed_tools ds ++ streamed_tools es
streamed_tools-append [] es = refl
streamed_tools-append (d ∷ ds) es =
    ap (λ l. tools_of d ++ l) (streamed_tools-append ds es)
    ∙ sym (List_append_assoc (tools_of d) (streamed_tools ds) (streamed_tools es))

streamed-deltas :
    (i : ℕ) (ps : List String)
    → (streamed_text (map (content_block_delta i) ps) ≡ joined ps)
      × (streamed_tools (map (content_block_delta i) ps) ≡ [])
unfolding joined
streamed-deltas i [] = (refl, refl)
streamed-deltas i (p ∷ ps) =
    let (texts, tools) = streamed-deltas i ps in (ap (λ s. p <> s) texts, tools)

streamed-text_deltas :
    (fuel i : ℕ) (s : String)
    → len s ≤ fuel
    → (streamed_text (text_deltas fuel i s) ≡ s) × (streamed_tools (text_deltas fuel i s) ≡ [])
unfolding text_deltas
streamed-text_deltas fuel i s enough = elim (Bool-cases (s == "")) [
  | inl blank ↦ let e : s ≡ "" = (eq_iff s "").0 blank in rw e (refl, refl)
  | inr there ↦
      let (texts, tools) = streamed-deltas i (pieces fuel s) in
      rw there (texts ∙ joined-pieces fuel s enough, tools)
]

module _ (V : Values) where
  -- The id and the name of a call.
  abbrev pub opening_of : ToolCall → Option String × Option String
  opening_of c = (some (text_or "" c.id), some (text_or "" c.name))

  streamed-calls :
      (fuel i : ℕ) (cs : List ToolCall)
      → (streamed_text (content_events V fuel i (map (use_block V) cs)) ≡ "")
        × (streamed_tools (content_events V fuel i (map (use_block V) cs)) ≡ map opening_of cs)
  unfolding content_events block_events use_block
  streamed-calls fuel i [] = (refl, refl)
  streamed-calls fuel i (c ∷ cs) =
      let (texts, tools) = streamed-calls fuel (i + 1) cs in
      let rest = content_events V fuel (i + 1) (map (use_block V) cs) in
      (nil-append _ ∙ nil-append (streamed_text rest) ∙ texts, ap (λ l. opening_of c ∷ l) tools)

  abbrev pub content_text : List Choice → String
  content_text [] = ""
  content_text (c ∷ cs) = text_or "" c.content

  abbrev pub content_calls : List Choice → List ToolCall
  content_calls [] = []
  content_calls (c ∷ cs) = c.tool_calls

  streamed-reply :
      (fuel : ℕ) (o : Option String) (cs : List ToolCall)
      → len (text_or "" o) ≤ fuel
      → let es = content_events V fuel 0 (reply_text V o ++ map (use_block V) cs) in
        (streamed_text es ≡ text_or "" o) × (streamed_tools es ≡ map opening_of cs)
  unfolding content_events block_events reply_text
  streamed-reply fuel none cs enough = streamed-calls fuel 0 cs
  streamed-reply fuel (some s) cs enough = elim (Bool-cases (s == "")) [
    | inl blank ↦
        let e : s ≡ "" = (eq_iff s "").0 blank in rw blank (rw e (streamed-calls fuel 0 cs))
    | inr there ↦
        let (texts, tools) = streamed-text_deltas fuel 0 s enough in
        let (texts', tools') = streamed-calls fuel 1 cs in
        let ds = text_deltas fuel 0 s in
        let rest = content_events V fuel 1 (map (use_block V) cs) in
        let stop = content_block_stop 0 ∷ [] in
        rw there (
          nil-append (streamed_text (ds ++ stop ++ rest))
              ∙ streamed_text-append (ds ++ stop) rest
              ∙ ap (λ t. streamed_text (ds ++ stop) <> t) texts'
              ∙ append-nil (streamed_text (ds ++ stop))
              ∙ streamed_text-append ds stop
              ∙ append-nil (streamed_text ds)
              ∙ texts,
          streamed_tools-append (ds ++ stop) rest
              ∙ ap (λ l. l ++ streamed_tools rest)
                  (streamed_tools-append ds stop ∙ List_append-nil (streamed_tools ds) ∙ tools)
              ∙ tools',
        )
  ]

  streamed-blocks :
      (fuel : ℕ) (cs : List Choice)
      → len (content_text cs) ≤ fuel
      → let es = content_events V fuel 0 (reply_blocks V cs) in
        (streamed_text es ≡ content_text cs)
        × (streamed_tools es ≡ map opening_of (content_calls cs))
  unfolding reply_blocks content_events
  streamed-blocks fuel [] enough = (refl, refl)
  streamed-blocks fuel (c ∷ cs) enough = streamed-reply fuel c.content c.tool_calls enough

  -- With fuel for its text, a response that is streamed in the format of Anthropic brings the
  -- client the text of its first choice, and the id and the name of each call of a tool in their
  -- order, but no input of a call.
  pub anthropic_stream_lem :
      (fuel : ℕ) (v : ChatResponse) (model : String)
      → len (content_text v.choices) ≤ fuel
      → (streamed_text (anthropic_stream V fuel (some v) model) ≡ content_text v.choices)
        × (streamed_tools (anthropic_stream V fuel (some v) model)
            ≡ map opening_of (content_calls v.choices))
  unfolding anthropic_stream
  anthropic_stream_lem fuel v model enough =
      let es = content_events V fuel 0 (reply_blocks V v.choices) in
      let r = openai_to_anthropic_response V v model in
      let last = message_delta r.stop_reason r.usage.output ∷ message_stop ∷ [] in
      let (texts, tools) = streamed-blocks fuel v.choices enough in
      (
        nil-append (streamed_text (es ++ last))
            ∙ streamed_text-append es last
            ∙ append-nil (streamed_text es)
            ∙ texts,
        streamed_tools-append es last ∙ List_append-nil (streamed_tools es) ∙ tools,
      )
