-- ===== src/Middleware/Streaming/RoundTrip.antt =====
-- middleware/cache.py: a cached response that is sent as a stream, and a stream that is assembled.
use Prim.Native.Char.{Char}
use text.Mathlib.TextLemmas.{append-nil, append_assoc, nil-append, cons-append}
use mathlib.Core.List.{append_assoc as List_append_assoc, append-nil as List_append-nil}
use commandclaw_gateway.Prelude.{
  ℕ, zero, suc, ◌≤◌, String, ◌≡◌, refl, ap, ◌∙◌, sym, none, some, List, [], ◌∷◌, ◌++◌, ◌<>◌, arith,
  if◌then◌else◌, drop_chars, Bool-cases, inl, inr,
}
use commandclaw_gateway.Auth.VirtualKeys.{text_or}
use commandclaw_gateway.Middleware.Streaming.{
  Chunk, Assembler, new_assembler, take_choice, add_chunk, add_chunks, take_chars, pieces, delta,
  content_chunks, tool_chunks, rechunk_for_streaming,
}

-- The number of characters.
abbrev pub len : String → ℕ
len String.[] = 0
len (String.◌∷◌ c s) = suc (len s)

pub take-drop : (n : ℕ) (s : String) → take_chars n s <> drop_chars n s ≡ s
unfolding take_chars drop_chars
take-drop zero s = nil-append s
take-drop (suc n) String.[] = refl
take-drop (suc n) (String.◌∷◌ c s) =
    cons-append c (take_chars n s) (drop_chars n s) ∙ ap (String.◌∷◌ c) (take-drop n s)

len-drop : (n : ℕ) (c : Char) (s : String) → len (drop_chars (suc n) (String.◌∷◌ c s)) ≤ len s
unfolding drop_chars
len-drop zero c s = omega arith
len-drop (suc n) c String.[] = omega arith
len-drop (suc n) c (String.◌∷◌ d s) = let h = len-drop n d s in omega arith

unfoldable pub joined : List String → String
joined [] = ""
joined (p ∷ ps) = p <> joined ps

pub joined-pieces : (fuel : ℕ) (s : String) → len s ≤ fuel → joined (pieces fuel s) ≡ s
unfolding joined pieces
joined-pieces zero String.[] h = refl
joined-pieces zero (String.◌∷◌ c s) h = absurd (omega arith)
joined-pieces (suc fuel) String.[] h = refl
joined-pieces (suc fuel) (String.◌∷◌ c s) h =
    ap (λ t. take_chars 20 (String.◌∷◌ c s) <> t)
      (joined-pieces fuel (drop_chars 20 (String.◌∷◌ c s)) (let k = len-drop 19 c s in omega arith))
    ∙ take-drop 20 (String.◌∷◌ c s)

module _ {T U : Type 0} where
  -- What a chunk adds to the content, and to the calls of tools.
  abbrev pub content_of : Chunk T U → String
  content_of c = if c.has_choice then text_or "" c.content else ""

  abbrev pub calls_of : Chunk T U → List T
  calls_of c = if c.has_choice then c.tool_calls else []

  abbrev pub contents : List (Chunk T U) → String
  contents [] = ""
  contents (c ∷ cs) = content_of c <> contents cs

  abbrev pub all_calls : List (Chunk T U) → List T
  all_calls [] = []
  all_calls (c ∷ cs) = calls_of c ++ all_calls cs

  add_chunk-step :
      (a : Assembler T U) (c : Chunk T U)
      → ((add_chunk a c).full_content ≡ a.full_content <> content_of c)
        × ((add_chunk a c).tool_calls ≡ a.tool_calls ++ calls_of c)
  unfolding add_chunk take_choice
  add_chunk-step a c = elim (Bool-cases c.has_choice) [
    | inl choice ↦ rw choice (refl, refl)
    | inr without ↦ rw without (sym (append-nil a.full_content), sym (List_append-nil a.tool_calls))
  ]

  -- A stream is assembled to the contents of its chunks in their order, and to all calls of tools.
  pub add_chunks_lem :
      (a : Assembler T U) (cs : List (Chunk T U))
      → ((add_chunks a cs).full_content ≡ a.full_content <> contents cs)
        × ((add_chunks a cs).tool_calls ≡ a.tool_calls ++ all_calls cs)
  unfolding add_chunks
  add_chunks_lem a [] = (sym (append-nil a.full_content), sym (List_append-nil a.tool_calls))
  add_chunks_lem a (c ∷ cs) =
      let (content, calls) = add_chunk-step a c in
      let (content', calls') = add_chunks_lem (add_chunk a c) cs in
      (
        content'
            ∙ ap (λ s. s <> contents cs) content
            ∙ append_assoc a.full_content (content_of c) (contents cs),
        calls'
            ∙ ap (λ l. l ++ all_calls cs) calls
            ∙ List_append_assoc a.tool_calls (calls_of c) (all_calls cs),
      )

module _ (T U : Type 0) where
  contents-append : (cs ds : List (Chunk T U)) → contents (cs ++ ds) ≡ contents cs <> contents ds
  contents-append [] ds = sym (nil-append (contents ds))
  contents-append (c ∷ cs) ds =
      ap (λ s. content_of c <> s) (contents-append cs ds)
      ∙ sym (append_assoc (content_of c) (contents cs) (contents ds))

  contents-content_chunks :
      (id : String) (ps : List String) → contents (content_chunks {T = T} {U = U} id ps) ≡ joined ps
  unfolding content_chunks delta joined
  contents-content_chunks id [] = refl
  contents-content_chunks id (p ∷ ps) = ap (λ s. p <> s) (contents-content_chunks id ps)

  contents-tool_chunks :
      (id : String) (ts : List T) → contents (tool_chunks {T = T} {U = U} id ts) ≡ ""
  unfolding tool_chunks delta
  contents-tool_chunks id [] = refl
  contents-tool_chunks id (t ∷ ts) =
      nil-append (contents (tool_chunks {T = T} {U = U} id ts)) ∙ contents-tool_chunks id ts

  all_calls-append :
      (cs ds : List (Chunk T U)) → all_calls (cs ++ ds) ≡ all_calls cs ++ all_calls ds
  all_calls-append [] ds = refl
  all_calls-append (c ∷ cs) ds =
      ap (λ s. calls_of c ++ s) (all_calls-append cs ds)
      ∙ sym (List_append_assoc (calls_of c) (all_calls cs) (all_calls ds))

  all_calls-content_chunks :
      (id : String) (ps : List String) → all_calls (content_chunks {T = T} {U = U} id ps) ≡ []
  unfolding content_chunks delta
  all_calls-content_chunks id [] = refl
  all_calls-content_chunks id (p ∷ ps) = all_calls-content_chunks id ps

  all_calls-tool_chunks :
      (id : String) (ts : List T) → all_calls (tool_chunks {T = T} {U = U} id ts) ≡ ts
  unfolding tool_chunks delta
  all_calls-tool_chunks id [] = refl
  all_calls-tool_chunks id (t ∷ ts) = ap (λ l. t ∷ l) (all_calls-tool_chunks id ts)

  -- A cached response that is sent as a stream and assembled again has the content and the calls of
  -- tools that it had.
  pub rechunk_for_streaming-roundtrip :
      (fuel : ℕ) (id content : String) (calls : List T) (finish_reason : String)
      → len content ≤ fuel
      → let a : Assembler T U =
          add_chunks new_assembler (rechunk_for_streaming fuel id content calls finish_reason) in
        (a.full_content ≡ content) × (a.tool_calls ≡ calls)
  unfolding rechunk_for_streaming new_assembler delta
  rechunk_for_streaming-roundtrip fuel id content calls finish_reason enough =
      let cs = content_chunks {T = T} {U = U} id (pieces fuel content) in
      let ts = tool_chunks {T = T} {U = U} id calls in
      let last = delta {T = T} {U = U} id none [] (some finish_reason) in
      let sent = rechunk_for_streaming {T = T} {U = U} fuel id content calls finish_reason in
      let (text, tools) = add_chunks_lem new_assembler sent in
      (
        text
            ∙ nil-append (contents sent)
            ∙ nil-append (contents (cs ++ ts ++ last ∷ []))
            ∙ contents-append (cs ++ ts) (last ∷ [])
            ∙ append-nil (contents (cs ++ ts))
            ∙ contents-append cs ts
            ∙ ap (λ s. contents cs <> s) (contents-tool_chunks id calls)
            ∙ append-nil (contents cs)
            ∙ contents-content_chunks id (pieces fuel content)
            ∙ joined-pieces fuel content enough,
        tools
            ∙ all_calls-append (cs ++ ts) (last ∷ [])
            ∙ List_append-nil (all_calls (cs ++ ts))
            ∙ all_calls-append cs ts
            ∙ ap (λ l. l ++ all_calls ts) (all_calls-content_chunks id (pieces fuel content))
            ∙ all_calls-tool_chunks id calls,
      )
