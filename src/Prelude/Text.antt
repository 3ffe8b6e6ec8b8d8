-- ===== src/Prelude/Text.antt =====
-- Texts: concatenation, and texts that begin differently.
use Prim.Native.Char.{code}
use Prim.Native.String.{String, ◌++◌ as append}
use mathlib.Core.Path.{◌≡◌, ap, ◌∙◌, sym}
use mathlib.Core.Logic.{◌≢◌}
use mathlib.Core.Bool.{Bool, true, false}
use native.Mathlib.Omega.{arith}
use text.Mathlib.TextLemmas.{cons-append, head-eq_of_cons-eq, tail-eq_of_cons-eq}
use commandclaw_gateway.Prelude.Tests.{◌==◌, nat_eq, if◌then◌else◌, eq-false_of_ne}

infixr 65 ◌<>◌
abbrev pub ◌<>◌ : String → String → String
s <> t = append s t

-- Do the two texts differ at a place that both have?
unfoldable pub clash : String → String → Bool
clash String.[] t = false
clash (String.◌∷◌ c s) String.[] = false
clash (String.◌∷◌ c s) (String.◌∷◌ d t) =
    let rest = clash s t in if nat_eq (code c) (code d) then rest else true

clash-ne : (p q a b : String) → clash p q ≡ true → (p <> a) ≢ (q <> b)
unfolding clash
clash-ne String.[] q a b h e = cc
clash-ne (String.◌∷◌ c s) String.[] a b h e = cc
clash-ne (String.◌∷◌ c s) (String.◌∷◌ d t) a b h e =
    let e' : String.◌∷◌ c (s <> a) ≡ String.◌∷◌ d (t <> b) =
      sym (cons-append c s a) ∙ e ∙ cons-append d t b in
    let same : code c ≡ code d = ap code (head-eq_of_cons-eq e') in
    clash-ne s t a b (ground arith) (tail-eq_of_cons-eq e')

-- Keys with clashing prefixes are different keys.
pub ==-clash : (p q a b : String) → clash p q ≡ true → ((p <> a) == (q <> b)) ≡ false
==-clash p q a b h = eq-false_of_ne _ _ (clash-ne p q a b h)
