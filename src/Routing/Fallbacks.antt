-- ===== src/Routing/Fallbacks.antt =====
-- routing/fallbacks.py: the models that are tried after the one asked for.
pub mod Chosen
use commandclaw_gateway.Prelude.{
  ℕ, String, Bool, true, false, not, ◌&&◌, ◌||◌, Option, none, some, List, [], ◌∷◌, ◌++◌, ◌==◌,
  if◌then◌else◌, lookup, contains, is_empty, truthy,
}
use commandclaw_gateway.Config.{RouterSettings}

pub record FallbackChain : Type 0 where
  pub primary_model : String
  pub standard_fallbacks : List String
  pub context_window_fallbacks : List String
  pub content_policy_fallbacks : List String
  pub default_fallback : Option String

pub data ErrorType : Type 0 where
  standard context_window content_policy : ErrorType

-- `d.get(model, [])`
get_models : String → List (String × List String) → List String
get_models model d = elim (lookup model d) [ none ↦ [] | some models ↦ models ]

module _ {F : Type 0} where
  -- `FallbackChain(primary_model, config)`
  unfoldable pub fallback_chain : String → RouterSettings F → FallbackChain
  unfolding get_models lookup
  fallback_chain model r = record {
    primary_model = model;
    standard_fallbacks = get_models model r.fallbacks;
    context_window_fallbacks = get_models model r.context_window_fallbacks;
    content_policy_fallbacks = get_models model r.content_policy_fallbacks;
    default_fallback = r.default_fallback;
  }

-- The list for the kind of error; the standard one where that is empty.
unfoldable pub configured : FallbackChain → ErrorType → List String
configured c standard = c.standard_fallbacks
configured c context_window =
    if is_empty c.context_window_fallbacks then c.standard_fallbacks else c.context_window_fallbacks
configured c content_policy =
    if is_empty c.content_policy_fallbacks then c.standard_fallbacks else c.content_policy_fallbacks

unfoldable pub with_default : Option String → List String → List String
with_default none models = models
with_default (some d) models =
    if d == "" then models else if contains models d then models else models ++ d ∷ []

unfoldable pub get_fallback_models : FallbackChain → ErrorType → List String
get_fallback_models c t = with_default c.default_fallback (configured c t)

unfoldable pub has_fallbacks : FallbackChain → Bool
has_fallbacks c =
    not (is_empty c.standard_fallbacks)
    || not (is_empty c.context_window_fallbacks)
    || not (is_empty c.content_policy_fallbacks)
    || truthy c.default_fallback
