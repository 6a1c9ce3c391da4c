-- ===== src/Prelude/Outcome.antt =====
-- A call that may leave by an uncaught C++ exception, or run into undefined behaviour.
use mathlib.Core.Path.{◌≡◌, refl, ap}
use mathlib.Core.Logic.{◌⊎◌, inl, inr}
use mathlib.Core.Bool.{Bool, true, false}
use forgechain.Prelude.Tests.{if◌then◌else◌}

pub data Outcome {ℓ} (A : Type ℓ) : Type ℓ where
  ok : A → Outcome A
  fault : Outcome A

infixl 5 ◌>>=◌
abbrev pub ◌>>=◌ {ℓ κ} : {A : Type ℓ} {B : Type κ} → Outcome A → (A → Outcome B) → Outcome B
ok a >>= f = f a
fault >>= f = fault

-- A sequence that ends well has a first call that ended well.
pub >>=-eq-ok {ℓ κ} :
    {A : Type ℓ} {B : Type κ} {last : B} (first : Outcome A) (next : A → Outcome B)
    → (first >>= next) ≡ ok last
    → (value : A) × (first ≡ ok value) × (next value ≡ ok last)
>>=-eq-ok fault next ended = cc
>>=-eq-ok (ok value) next ended = (value, refl, ended)

pub Outcome-cases {ℓ} : {A : Type ℓ} (m : Outcome A) → (m ≡ fault) ⊎ ((a : A) × (m ≡ ok a))
Outcome-cases fault = inl refl
Outcome-cases (ok a) = inr (a, refl)

-- `P` of the value, if there is one.
abbrev pub After {ℓ κ} : {A : Type ℓ} → (A → Type κ) → Outcome A → Type κ
After P (ok a) = P a
After P fault = Unit

pub After->>= {ℓ κ μ} :
    {A : Type ℓ} {B : Type κ} (P : B → Type μ) (m : Outcome A) (f : A → Outcome B)
    → ((a : A) → m ≡ ok a → After P (f a))
    → After P (m >>= f)
After->>= P (ok a) f h = h a refl
After->>= P fault f h = tt

pub ok-injective {ℓ} : {A : Type ℓ} (a b : A) → ok a ≡ ok b → a ≡ b
ok-injective a b h = ap (λ o. elim o [ ok x ↦ x | fault ↦ a ]) h

-- The same with what is known after the first call.
pub After-then {ℓ κ μ ν} :
    {A : Type ℓ} {B : Type κ} (Q : A → Type ν) (P : B → Type μ) (m : Outcome A) (f : A → Outcome B)
    → After Q m
    → ((a : A) → m ≡ ok a → Q a → After P (f a))
    → After P (m >>= f)
After-then Q P (ok a) f q h = h a refl q
After-then Q P fault f q h = tt

-- On both branches of a test.
pub on_branches {ℓ κ} :
    {A : Type ℓ} (P : A → Type κ) (b : Bool) (x y : A)
    → (b ≡ true → P x)
    → (b ≡ false → P y)
    → P (if b then x else y)
on_branches P true x y h k = h refl
on_branches P false x y h k = k refl
