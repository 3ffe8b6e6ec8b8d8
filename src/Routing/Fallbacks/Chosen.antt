-- ===== src/Routing/Fallbacks/Chosen.antt =====
-- routing/fallbacks.py: which models a chain offers.
use commandclaw_gateway.Prelude.{
  String, ◌≡◌, refl, ◌∙◌, ◌≢◌, true, false, ◌||◌, some, List, [], ◌∷◌, ◌++◌, arith, contains,
  is_empty, eq_self, Bool-cases, inl, inr, eq-false_of_ne,
}
use commandclaw_gateway.Routing.Fallbacks.{
  FallbackChain, ErrorType, configured, with_default, get_fallback_models, has_fallbacks,
}

contains-append :
    (xs ys : List String) (s : String) → contains (xs ++ ys) s ≡ (contains xs s || contains ys s)
unfolding contains
contains-append [] ys s = refl
contains-append (x ∷ xs) ys s = ground (arith, contains-append xs ys s)

with_default-contains :
    (d m : String) (models : List String)
    → d ≢ ""
    → (contains (with_default (some d) models) d ≡ true)
      × (contains models m ≡ true → contains (with_default (some d) models) m ≡ true)
unfolding with_default
with_default-contains d m models h = elim (Bool-cases (contains models d)) [
  | inl old ↦ rw (eq-false_of_ne d "" h, old) (old, λ k. k)
  | inr new ↦
      rw (eq-false_of_ne d "" h, new)
        (
          unfold contains in (contains-append models (d ∷ []) d ∙ rw (new, eq_self d)),
          λ k. unfold contains in (contains-append models (d ∷ []) m ∙ rw k),
        )
]

-- Whatever the error, the default fallback is offered if there is one, and so is every model that is
-- configured for the error.
pub get_fallback_models-contains :
    (c : FallbackChain) (t : ErrorType) (d m : String)
    → c.default_fallback ≡ some d
    → d ≢ ""
    → (contains (get_fallback_models c t) d ≡ true)
      × (contains (configured c t) m ≡ true → contains (get_fallback_models c t) m ≡ true)
unfolding get_fallback_models
get_fallback_models-contains c t d m e h = simp e (with_default-contains d m (configured c t) h)

nil_of_is_empty : (xs : List String) → is_empty xs ≡ true → xs ≡ []
unfolding is_empty
nil_of_is_empty [] h = refl
nil_of_is_empty (x ∷ xs) h = cc

-- A chain without fallbacks offers no model, whatever the error.
pub get_fallback_models_nil :
    (c : FallbackChain) (t : ErrorType) → has_fallbacks c ≡ false → get_fallback_models c t ≡ []
unfolding get_fallback_models has_fallbacks configured with_default
get_fallback_models_nil c t h = ground (
  arith,
  nil_of_is_empty c.standard_fallbacks,
  nil_of_is_empty c.context_window_fallbacks,
  nil_of_is_empty c.content_policy_fallbacks,
)
