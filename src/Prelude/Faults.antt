-- ===== src/Prelude/Faults.antt =====
-- What a call of the C++ code comes to: a value, or one of the ways in which it does not return.
use mathlib.Core.Path.{◌≡◌, refl}
use mathlib.Core.Logic.{◌⊎◌, inl, inr}

-- `undefined` is undefined behaviour of C++ (an element of an empty queue, an index out of an
-- array); `terminated` is a failed PFS__TERMINATE; `unexpected_data` is a thrown netty::error;
-- `out_of_fuel` is the model's own, for a loop on fuel.
pub data Fault : Type 0 where
  undefined terminated unexpected_data out_of_fuel : Fault

pub data Outcome {ℓ} (A : Type ℓ) : Type ℓ where
  done : A → Outcome A
  fails : Fault → Outcome A

infixl 5 ◌>>=◌
abbrev pub ◌>>=◌ {ℓ κ} : {A : Type ℓ} {B : Type κ} → Outcome A → (A → Outcome B) → Outcome B
done a >>= f = f a
fails e >>= f = fails e

pub >>=-eq-done {ℓ κ} :
    {A : Type ℓ} {B : Type κ} (m : Outcome A) (f : A → Outcome B) {b : B}
    → (m >>= f) ≡ done b
    → (a : A) × (m ≡ done a) × (f a ≡ done b)
>>=-eq-done (done a) f h = (a, refl, h)
>>=-eq-done (fails e) f h = cc

pub done-injective {ℓ} : {A : Type ℓ} {a b : A} → done a ≡ done b → a ≡ b
done-injective e = cc

pub Outcome-cases {ℓ} :
    {A : Type ℓ} (m : Outcome A) → ((a : A) × (m ≡ done a)) ⊎ ((f : Fault) × (m ≡ fails f))
Outcome-cases (done a) = inl (a, refl)
Outcome-cases (fails f) = inr (f, refl)

pub fails-injective {ℓ} :
    {A : Type ℓ} {f g : Fault} → ◌≡◌ {A = Outcome A} (fails f) (fails g) → f ≡ g
fails-injective e = cc
