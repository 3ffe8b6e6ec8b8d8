-- ===== src/Providers/Anthropic/Stream/Ids.antt =====
-- providers/anthropic_provider.py `transform_stream_chunk`: which id the chunks of a stream have.
use commandclaw_gateway.Prelude.{
  String, ◌≡◌, refl, sym, subst, inl, inr, Bool, false, ◌&&◌, Option, none, some, List, [], ◌∷◌,
  ◌==◌, starts_with, strip, drop_chars, All, Bool-cases, Option-cases,
}
use commandclaw_gateway.Schemas.{Deployment}
use commandclaw_gateway.Auth.VirtualKeys.{text_or}
use commandclaw_gateway.Providers.Anthropic.Stream.{
  Payload, StreamState, Emitted, chunk, done, id_of, delta_chunk, start_chunk, finish_chunk,
  on_data, loaded, transform_stream_chunk, after, transform_stream,
}

-- A chunk has an id; the end of a stream has none.
abbrev pub HasId : String → Emitted → Type 0
HasId i done = Unit
HasId i (chunk m c) = c.id ≡ some i

abbrev Emits : String → Option Emitted → Type 0
Emits i none = Unit
Emits i (some e) = HasId i e

-- Does a line name the event that starts a message?
abbrev pub starts_message : String → Bool
starts_message l =
    starts_with (strip l) "event: " && strip (drop_chars 7 (strip l)) == "message_start"

-- Within the stream of the message `i`.
pub record Underway (i : String) (st : StreamState) : Type 0 where
  pub id : st.stream_id ≡ some i
  pub event : (text_or "" st.current_event == "message_start") ≡ false

module _ {F : Type 0} (d : Deployment F) (new_id i : String) where
  delta_chunk-id :
      (p : Payload) (st : StreamState) → Underway i st → Emits i (delta_chunk d new_id p st)
  unfolding delta_chunk id_of
  delta_chunk-id p st u = elim (Bool-cases (text_or "" p.delta_type == "text_delta")) [
    | inl words ↦ rw (words, u.id) refl
    | inr other ↦ rw other (elim (Bool-cases (text_or "" p.delta_type == "input_json_delta")) [
      | inl json ↦ rw (json, u.id) refl
      | inr neither ↦ rw neither tt
    ])
  ]

  start_chunk-id :
      (p : Payload) (st : StreamState) → Underway i st → Emits i (start_chunk d new_id p st)
  unfolding start_chunk id_of
  start_chunk-id p st u = elim (Bool-cases (text_or "" p.block_type == "tool_use")) [
    | inl tool ↦ rw (tool, u.id) refl
    | inr other ↦ rw other tt
  ]

  on_data-id :
      (event : String) (p : Payload) (st : StreamState)
      → (event == "message_start") ≡ false
      → Underway i st
      → Emits i (on_data d new_id event p st).0 × ((on_data d new_id event p st).1 ≡ st)
  unfolding on_data finish_chunk id_of
  on_data-id event p st later u = rw later (elim (Bool-cases (event == "content_block_delta")) [
    | inl e ↦ rw e (delta_chunk-id p st u, refl)
    | inr e ↦ rw e (elim (Bool-cases (event == "content_block_start")) [
      | inl e ↦ rw e (start_chunk-id p st u, refl)
      | inr e ↦ rw e (elim (Bool-cases (event == "message_delta")) [
        | inl e ↦ rw e (rw u.id refl, refl)
        | inr e ↦ rw e (elim (Bool-cases (event == "message_stop")) [
          | inl e ↦ rw e (tt, refl)
          | inr e ↦ rw e (tt, refl)
        ])
      ])
    ])
  ])

  module _ (loads : String → Option Payload) where
    -- A line that starts no message emits chunks of this one only, and leaves it underway.
    transform_stream_chunk-id :
        (l : String) (st : StreamState)
        → starts_message l ≡ false
        → Underway i st
        → let out = transform_stream_chunk d new_id loads l st in Emits i out.0 × Underway i out.1
    unfolding transform_stream_chunk loaded
    transform_stream_chunk-id l st quiet u = elim (Bool-cases (starts_with (strip l) "event: ")) [
      | inl event ↦ rw event (tt, record { id = u.id; event = rw event at quiet })
      | inr other ↦ rw other (elim (Bool-cases (starts_with (strip l) "data: ")) [
        | inl payload ↦ rw payload (elim (Option-cases (loads (drop_chars 6 (strip l)))) [
          | inl broken ↦ rw broken (tt, u)
          | inr (p, good) ↦
              let (emits, same) = on_data-id (text_or "" st.current_event) p st u.event u in
              rw good (emits, subst (Underway i) (sym same) u)
        ])
        | inr neither ↦ rw neither (tt, u)
      ])
    ]

    All-after :
        (out : Option Emitted) (rest : List Emitted)
        → Emits i out
        → All (HasId i) rest
        → All (HasId i) (after d new_id loads out rest)
    unfolding after
    All-after none rest h hs = hs
    All-after (some done) rest h hs = tt
    All-after (some (chunk m c)) rest h hs = (h, hs)

    -- From within the stream of a message, as long as no line starts another message, every chunk
    -- has the id of the message.
    pub transform_stream-ids :
        (ls : List String) (st : StreamState)
        → Underway i st
        → All (λ l. starts_message l ≡ false) ls
        → All (HasId i) (transform_stream d new_id loads ls st)
    unfolding transform_stream
    transform_stream-ids [] st u quiet = tt
    transform_stream-ids (l ∷ ls) st u (here, quiet) =
        let (emits, u') = transform_stream_chunk-id l st here u in
        All-after _ _ emits (transform_stream-ids ls _ u' quiet)
