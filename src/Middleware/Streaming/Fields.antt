-- ===== src/Middleware/Streaming/Fields.antt =====
-- middleware/cache.py `StreamingCacheAssembler`: what an assembly keeps of the chunks of a stream,
-- besides their contents and calls.
use commandclaw_gateway.Prelude.{
  String, ◌≡◌, refl, ap, sym, ◌∙◌, Option, none, some, List, [], ◌∷◌, ◌==◌, eq_iff, if◌then◌else◌,
  Bool-cases, Option-cases, inl, inr,
}
use commandclaw_gateway.Auth.VirtualKeys.{text_or}
use commandclaw_gateway.Middleware.Streaming.{
  Chunk, Assembler, new_assembler, take_choice, add_chunk, add_chunks,
}

-- The later of two values.
abbrev pub later : {A : Type 0} → Option A → Option A → Option A
later none d = d
later (some x) d = some x

later_assoc : {A : Type 0} (x y z : Option A) → later (later x y) z ≡ later x (later y z)
later_assoc none y z = refl
later_assoc (some x) y z = refl

later-none : {A : Type 0} (x : Option A) → later x none ≡ x
later-none none = refl
later-none (some x) = refl

-- A text that is not empty.
abbrev pub non_empty : Option String → Option String
non_empty none = none
non_empty (some s) = if s == "" then none else some s

module _ {T U : Type 0} where
  abbrev pub last_usage : List (Chunk T U) → Option U
  last_usage [] = none
  last_usage (c ∷ cs) = later (last_usage cs) c.usage

  -- The last reason to finish that is not empty, of a chunk with a choice.
  abbrev pub reason_of : Chunk T U → Option String
  reason_of c = if c.has_choice then non_empty c.finish_reason else none

  abbrev pub last_reason : List (Chunk T U) → Option String
  last_reason [] = none
  last_reason (c ∷ cs) = later (last_reason cs) (reason_of c)

  -- The first id that is not empty.
  abbrev pub first_id : List (Chunk T U) → String
  first_id [] = ""
  first_id (c ∷ cs) = text_or (first_id cs) (non_empty c.id)

  add_chunk-usage :
      (a : Assembler T U) (c : Chunk T U) → (add_chunk a c).usage ≡ later c.usage a.usage
  unfolding add_chunk take_choice
  add_chunk-usage a c = elim (Option-cases c.usage) [
    | inl without ↦ rw without refl
    | inr (u, e) ↦ rw e refl
  ]

  add_chunk-reason :
      (a : Assembler T U) (c : Chunk T U)
      → (add_chunk a c).finish_reason ≡ later (reason_of c) a.finish_reason
  unfolding add_chunk take_choice
  add_chunk-reason a c = elim (Bool-cases c.has_choice) [
    | inr without ↦ rw without refl
    | inl choice ↦ elim (Option-cases c.finish_reason) [
      | inl missing ↦ rw (choice, missing) refl
      | inr (s, e) ↦ elim (Bool-cases (s == "")) [
        | inl blank ↦ rw (choice, e, blank) refl
        | inr named ↦ rw (choice, e, named) refl
      ]
    ]
  ]

  add_chunks-usage :
      (a : Assembler T U) (cs : List (Chunk T U))
      → (add_chunks a cs).usage ≡ later (last_usage cs) a.usage
  unfolding add_chunks
  add_chunks-usage a [] = refl
  add_chunks-usage a (c ∷ cs) =
      add_chunks-usage (add_chunk a c) cs
      ∙ ap (later (last_usage cs)) (add_chunk-usage a c)
      ∙ sym (later_assoc (last_usage cs) c.usage a.usage)

  add_chunks-reason :
      (a : Assembler T U) (cs : List (Chunk T U))
      → (add_chunks a cs).finish_reason ≡ later (last_reason cs) a.finish_reason
  unfolding add_chunks
  add_chunks-reason a [] = refl
  add_chunks-reason a (c ∷ cs) =
      add_chunks-reason (add_chunk a c) cs
      ∙ ap (later (last_reason cs)) (add_chunk-reason a c)
      ∙ sym (later_assoc (last_reason cs) (reason_of c) a.finish_reason)

  add_chunk-id :
      (a : Assembler T U) (c : Chunk T U) (rest : String)
      → (if (add_chunk a c).response_id == "" then rest else (add_chunk a c).response_id)
        ≡ (if a.response_id == "" then text_or rest (non_empty c.id) else a.response_id)
  unfolding add_chunk take_choice
  add_chunk-id a c rest = elim (Bool-cases (a.response_id == "")) [
    | inr named ↦ rw (named, named) refl
    | inl blank ↦ elim (Option-cases c.id) [
      | inl missing ↦ rw (blank, missing) refl
      | inr (s, e) ↦ elim (Bool-cases (s == "")) [
        | inl empty ↦ rw (blank, e, empty) refl
        | inr known ↦ rw (blank, e, known) refl
      ]
    ]
  ]

  add_chunks-first_id :
      (a : Assembler T U) (cs : List (Chunk T U))
      → (add_chunks a cs).response_id ≡ (if a.response_id == "" then first_id cs else a.response_id)
  unfolding add_chunks add_chunk
  add_chunks-first_id a [] = elim (Bool-cases (a.response_id == "")) [
    | inl blank ↦ rw blank ((eq_iff a.response_id "").0 blank)
    | inr named ↦ rw named refl
  ]
  add_chunks-first_id a (c ∷ cs) =
      add_chunks-first_id (add_chunk a c) cs ∙ add_chunk-id a c (first_id cs)

  -- A new assembler keeps the last usage and reason to finish, and the first id.
  pub new_assembler-keeps :
      (cs : List (Chunk T U))
      → let a = add_chunks new_assembler cs in
        (a.usage ≡ last_usage cs)
        × (a.finish_reason ≡ last_reason cs)
        × (a.response_id ≡ first_id cs)
  unfolding new_assembler
  new_assembler-keeps cs = (
    add_chunks-usage new_assembler cs ∙ later-none (last_usage cs),
    add_chunks-reason new_assembler cs ∙ later-none (last_reason cs),
    add_chunks-first_id new_assembler cs,
  )
