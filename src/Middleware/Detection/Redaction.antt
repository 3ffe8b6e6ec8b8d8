-- ===== src/Middleware/Detection/Redaction.antt =====
-- middleware/guardrails.py `_redact_pii`: findings that do not overlap are replaced where they stand.
use package.text.Mathlib.TextLemmas.{append_assoc}
use commandclaw_gateway.Prelude.{
  ℕ, ◌+◌, ◌-◌, ◌≤◌, String, ◌≡◌, refl, sym, ap, ◌∙◌, List, [], ◌∷◌, ◌<>◌, arith, drop_chars, All,
}
use commandclaw_gateway.Middleware.Streaming.{take_chars}
use commandclaw_gateway.Middleware.Streaming.RoundTrip.{len, take-drop}
use commandclaw_gateway.Middleware.Detection.{Finding, from_last, placeholder, replace, redact_pii}
use commandclaw_gateway.Middleware.Detection.Slices.{
  len-append, take_chars-append, drop_chars-append, len-take_chars, len-drop_chars, drop-drop,
}
use commandclaw_gateway.Middleware.Detection.Erased.{erased, Falling, erased-behind, erased-parts}
use commandclaw_gateway.Middleware.Detection.Order.{
  AllApart, Within, from_last-Falling, erased-from_last,
}

-- Replacing within the first part of a text leaves the second.
replace-append :
    (n : ℕ) (a b : String) (gs : List Finding)
    → Falling n gs
    → n ≤ len a
    → replace (a <> b) gs ≡ replace a gs <> b
unfolding replace
replace-append n a b [] h le = refl
replace-append n a b (g ∷ gs) (some_text, within, falling) le =
    let a' = take_chars g.start a <> placeholder g <> drop_chars g.stop a in
    let shorter : take_chars g.start (a <> b) ≡ take_chars g.start a =
      take_chars-append g.start a b (omega arith) in
    let rest : drop_chars g.stop (a <> b) ≡ drop_chars g.stop a <> b =
      drop_chars-append g.stop a b (omega arith) in
    let long : g.start ≤ len a' = omega (
      arith,
      len-append (take_chars g.start a) (placeholder g <> drop_chars g.stop a),
      len-take_chars g.start a (omega arith),
    ) in
    ap (λ t. replace t gs)
      (ap (λ t. t <> placeholder g <> drop_chars g.stop (a <> b)) shorter
        ∙ ap (λ t. take_chars g.start a <> placeholder g <> t) rest
        ∙ ap (λ t. take_chars g.start a <> t)
            (sym (append_assoc (placeholder g) (drop_chars g.stop a) b))
        ∙ sym (append_assoc (take_chars g.start a) (placeholder g <> drop_chars g.stop a) b))
    ∙ replace-append g.start a' b gs falling long

replace-erased :
    (n : ℕ) (text : String) (gs : List Finding)
    → Falling n gs
    → n ≤ len text
    → replace text gs ≡ erased 0 text gs
unfolding replace
replace-erased n text [] falling within = sym (erased-behind 0 0 text [] tt (omega arith))
replace-erased n text (g ∷ gs) (some_text, ends, falling) within =
    let a = take_chars g.start text in
    let m = take_chars (g.stop - g.start) (drop_chars g.start text) in
    let c = drop_chars g.stop text in
    let size : len a ≡ g.start = len-take_chars g.start text (omega arith) in
    let left = len-drop_chars g.start text (omega arith) in
    let middle : g.start + len m ≡ g.stop =
      omega (
        arith,
        len-take_chars (g.stop - g.start) (drop_chars g.start text) (omega (arith, left)),
      ) in
    let total : g.start + (g.stop - g.start) ≡ g.stop = omega arith in
    let rest : drop_chars (g.stop - g.start) (drop_chars g.start text) ≡ c =
      drop-drop g.start (g.stop - g.start) text ∙ ap (λ k. drop_chars k text) total in
    let whole : a <> m <> c ≡ text =
      ap (λ t. a <> m <> t) (sym rest)
      ∙ ap (λ t. a <> t) (take-drop (g.stop - g.start) (drop_chars g.start text))
      ∙ take-drop g.start text in
    replace-append g.start a (placeholder g <> c) gs falling (omega arith)
    ∙ ap (λ t. t <> placeholder g <> c) (replace-erased g.start a gs falling (omega arith))
    ∙ sym (erased-parts a m c g gs falling some_text size middle)
    ∙ ap (λ t. erased 0 t (g ∷ gs)) whole

-- If the findings are not empty, lie in the text and do not overlap, then in whatever order they come,
-- redaction leaves out exactly the characters inside of them and puts the placeholder of each where
-- it begins.
pub redact_pii_lem :
    (text : String) (fs : List Finding)
    → All (Within (len text)) fs
    → AllApart fs
    → redact_pii text fs ≡ erased 0 text fs
unfolding redact_pii
redact_pii_lem text fs within apart =
    replace-erased (len text) text (from_last fs) (from_last-Falling (len text) fs within apart)
      (omega arith)
    ∙ erased-from_last 0 text fs
