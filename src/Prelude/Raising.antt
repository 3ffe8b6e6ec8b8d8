-- ===== src/Prelude/Raising.antt =====
-- Python code that may raise an exception.
use mathlib.Core.Option.{Option, none, some}
use mathlib.Core.List.{List, [], ◌∷◌}
use mathlib.Core.Path.{◌≡◌, refl, sym, subst}
use mathlib.Core.Bool.{Bool, true, false}
use mathlib.Core.Logic.{◌⊎◌, inl, inr}
use commandclaw_gateway.Prelude.Lists.{In}
use commandclaw_gateway.Prelude.Tests.{if◌then◌else◌}

pub data Error : Type 0 where
  value_error key_error index_error json_error provider_error : Error

pub data Try {ℓ} (A : Type ℓ) : Type ℓ where
  ok : A → Try A
  raise : Error → Try A

infixl 5 ◌>>=◌
abbrev pub ◌>>=◌ {ℓ κ} : {A : Type ℓ} {B : Type κ} → Try A → (A → Try B) → Try B
ok a >>= f = f a
raise e >>= f = raise e

-- A `none` of a reader stands for the exception.
abbrev pub or_raise {ℓ} : {A : Type ℓ} → Error → Option A → Try A
or_raise e none = raise e
or_raise e (some a) = ok a

-- Where a sequence returned, its first part did, and the rest returned from there.
pub >>=-eq-ok {ℓ κ} :
    {A : Type ℓ} {B : Type κ} (first : Try A) (rest : A → Try B) {result : B}
    → (first >>= rest) ≡ ok result
    → (value : A) × (first ≡ ok value) × (rest value ≡ ok result)
>>=-eq-ok (raise e) rest returned = cc
>>=-eq-ok (ok value) rest returned = (value, refl, returned)

module _ {ℓ} {A : Type ℓ} where
  -- A loop that collects the items that pass a test which may raise.
  unfoldable pub keep_try : (A → Try Bool) → List A → Try (List A)
  keep_try p [] = ok []
  keep_try p (x ∷ xs) = do pass ← p x; rest ← keep_try p xs; ok (if pass then x ∷ rest else rest)

pub ok-injective {ℓ} : {A : Type ℓ} (a b : A) → ok a ≡ ok b → a ≡ b
ok-injective a b e = cc

In-if :
    {A : Type 0} (b : Bool) (x y : A) (rest : List A)
    → In x (if b then y ∷ rest else rest)
    → (x ≡ y) ⊎ In x rest
In-if true x y rest m = m
In-if false x y rest m = inr m

-- What such a loop collects was in the list.
pub In-keep_try :
    {A : Type 0} (p : A → Try Bool) (x : A) (xs ys : List A)
    → keep_try p xs ≡ ok ys
    → In x ys
    → In x xs
unfolding keep_try
In-keep_try p x [] ys e m = subst (In x) (sym (ok-injective [] ys e)) m
In-keep_try p x (y ∷ xs) ys e m =
    let (pass, _, e') = >>=-eq-ok (p y) _ e in
    let (rest, collected, e'') = >>=-eq-ok (keep_try p xs) _ e' in
    elim (In-if pass x y rest (subst (In x) (sym (ok-injective _ ys e'')) m)) [
      | inl here ↦ inl here
      | inr there ↦ inr (In-keep_try p x xs rest collected there)
    ]
