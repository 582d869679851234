-- ===== src/Base/Calls.antt =====
-- How a call of the C code ends: with a value, in undefined behaviour, or with the model's own
-- fuel used up. The theorems exclude the last two.
use mathlib.Core.Path.{◌≡◌, refl}
use mathlib.Core.Bool.{Bool, true, false}
use jega.Base.Tests.{if◌then◌else◌}

pub data Run {ℓ} (A : Type ℓ) : Type ℓ where
  fault : Run A
  out_of_fuel : Run A
  ok : A → Run A

infixl 5 ◌>>=◌
abbrev pub ◌>>=◌ {ℓ κ} : {A : Type ℓ} {B : Type κ} → Run A → (A → Run B) → Run B
fault >>= next = fault
out_of_fuel >>= next = out_of_fuel
ok value >>= next = next value

-- The call comes to an end with a value of which `P` holds.
pub data Ends {ℓ κ} {A : Type ℓ} (P : A → Type κ) : Run A → Type (ℓ ⊔ κ) where
  ends : {value : A} → P value → Ends P (ok value)

pub Ends-weaken {ℓ κ μ} :
    {A : Type ℓ} {P : A → Type κ} {Q : A → Type μ} {call : Run A}
    → Ends P call
    → ((value : A) → P value → Q value)
    → Ends Q call
Ends-weaken (ends held) weaker = ends (weaker _ held)

pub Ends-then {ℓ κ μ ν} :
    {A : Type ℓ} {B : Type μ} {P : A → Type κ} {Q : B → Type ν} {call : Run A} {next : A → Run B}
    → Ends P call
    → ((value : A) → P value → Ends Q (next value))
    → Ends Q (call >>= next)
Ends-then (ends held) rest = rest _ held

pub Ends-branch {ℓ κ} :
    {A : Type ℓ} {P : A → Type κ} {taken other : Run A} (test : Bool)
    → (test ≡ true → Ends P taken)
    → (test ≡ false → Ends P other)
    → Ends P (if test then taken else other)
Ends-branch true passes fails = passes refl
Ends-branch false passes fails = fails refl

-- The value that a call ends with.
pub Ends-value {ℓ κ} :
    {A : Type ℓ} {P : A → Type κ} {call : Run A}
    → Ends P call
    → (value : A) × (call ≡ ok value) × P value
Ends-value (ends held) = (_, refl, held)
