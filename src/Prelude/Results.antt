-- ===== src/Prelude/Results.antt =====
-- Code that may throw a C++ exception: a value, or what was thrown. A failed `assert` and undefined
-- behaviour end a run as well, and are named like exceptions here.
use mathlib.Core.Path.{◌≡◌, refl}
use mathlib.Core.Logic.{◌⊎◌, inl, inr}
use mathlib.Core.Bool.{Bool, true, false}
use shitty.Prelude.Tests.{if◌then◌else◌}

pub data Exception : Type 0 where
  runtime_error : Exception
  logic_error : Exception
  out_of_range : Exception
  length_error : Exception
  invalid_argument : Exception
  bad_function_call : Exception
  assert_failed : Exception
  undefined_behaviour : Exception

pub data Result {ℓ} (Value : Type ℓ) : Type ℓ where
  thrown : Exception → Result Value
  ok : Value → Result Value

-- What is thrown ends the chain.
infixl 5 ◌>>=◌
abbrev pub ◌>>=◌ {ℓ κ} : {V : Type ℓ} {W : Type κ} → Result V → (V → Result W) → Result W
thrown what >>= next = thrown what
ok value >>= next = next value

-- To split on a computed result and keep the equation.
pub Result-cases {ℓ} :
    {A : Type ℓ} (m : Result A) → ((a : A) × (m ≡ ok a)) ⊎ ((e : Exception) × (m ≡ thrown e))
Result-cases (ok a) = inl (a, refl)
Result-cases (thrown e) = inr (e, refl)

-- A property of the value, where there is one.
abbrev pub AllOk {ℓ κ} : {A : Type ℓ} → (A → Type κ) → Result A → Type κ
AllOk P (ok a) = P a
AllOk P (thrown e) = Unit

pub AllOk->>= {ℓ ℓ' κ κ'} :
    {A : Type ℓ} {B : Type ℓ'} (P : A → Type κ) (Q : B → Type κ') (m : Result A) (f : A → Result B)
    → AllOk P m
    → ((a : A) → P a → AllOk Q (f a))
    → AllOk Q (m >>= f)
AllOk->>= P Q (ok a) f h k = k a h
AllOk->>= P Q (thrown e) f h k = tt

pub AllOk-if {ℓ κ} :
    {A : Type ℓ} (P : A → Type κ) (b : Bool) (x y : Result A)
    → AllOk P x
    → AllOk P y
    → AllOk P (if b then x else y)
AllOk-if P true x y h h' = h
AllOk-if P false x y h h' = h'

pub AllOk-any {ℓ κ} : {A : Type ℓ} (P : A → Type κ) (m : Result A) → ((a : A) → P a) → AllOk P m
AllOk-any P (ok a) h = h a
AllOk-any P (thrown e) h = tt

pub AllOk-map {ℓ κ κ'} :
    {A : Type ℓ} (P : A → Type κ) (Q : A → Type κ') (m : Result A)
    → AllOk P m
    → ((a : A) → P a → AllOk Q (ok a))
    → AllOk Q m
AllOk-map P Q (ok a) h k = k a h
AllOk-map P Q (thrown e) h k = tt
