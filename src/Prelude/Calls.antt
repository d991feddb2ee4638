-- ===== src/Prelude/Calls.antt =====
-- What a call of C++ code may come to: a value, a `std::out_of_range` that leaves the function, or
-- undefined behaviour.
use mathlib.Core.Bool.{Bool, true, false}
use mathlib.Core.Option.{some}
use rmw_opendds.Prelude.Tests.{if◌then◌else◌}
use mathlib.Core.Path.{◌≡◌, refl}

pub data Outcome {ℓ} (A : Type ℓ) : Type ℓ where
  ok : A → Outcome A
  out_of_range : Outcome A
  undefined : Outcome A

infixl 5 ◌>>=◌
abbrev pub ◌>>=◌ {ℓ κ} : {A : Type ℓ} {B : Type κ} → Outcome A → (A → Outcome B) → Outcome B
ok a >>= f = f a
out_of_range >>= f = out_of_range
undefined >>= f = undefined

abbrev pub is_ok {ℓ} : {A : Type ℓ} → Outcome A → Bool
is_ok (ok a) = true
is_ok out_of_range = false
is_ok undefined = false

-- The call returns.
abbrev pub Returns {ℓ} : {A : Type ℓ} → Outcome A → Type 0
Returns r = is_ok r ≡ true

pub ok_of_Returns {ℓ} : {A : Type ℓ} (r : Outcome A) → Returns r → (a : A) × (r ≡ ok a)
ok_of_Returns (ok a) h = (a, refl)
ok_of_Returns out_of_range h = cc
ok_of_Returns undefined h = cc

pub ok-injective {ℓ} : {A : Type ℓ} {x y : A} → ok x ≡ ok y → x ≡ y
ok-injective e = cc

pub some-injective {ℓ} : {A : Type ℓ} {x y : A} → some x ≡ some y → x ≡ y
some-injective e = cc

-- Where the call returns, its value has the property.
abbrev pub After {ℓ} : {A : Type ℓ} → (A → Type 0) → Outcome A → Type 0
After p (ok a) = p a
After p out_of_range = Unit {0}
After p undefined = Unit {0}

pub After-bind {ℓ κ} :
    {A : Type ℓ} {B : Type κ} (p : A → Type 0) (q : B → Type 0) (r : Outcome A) (f : A → Outcome B)
    → After p r
    → ((a : A) → p a → After q (f a))
    → After q (r >>= f)
After-bind p q (ok a) f h k = k a h
After-bind p q out_of_range f h k = tt
After-bind p q undefined f h k = tt

pub After-any {ℓ} : {A : Type ℓ} (p : Type 0) (r : Outcome A) → p → After (λ a. p) r
After-any p (ok a) h = h
After-any p out_of_range h = tt
After-any p undefined h = tt

-- Both branches of a test have the property.
pub on_branches {ℓ} :
    {A : Type ℓ} (p : A → Type 0) (b : Bool) (x y : A) → p x → p y → p (if b then x else y)
on_branches p true x y h k = h
on_branches p false x y h k = k
