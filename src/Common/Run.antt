-- ===== src/Common/Run.antt =====
-- How a call ends, and the rules for calls that end well.
use mathlib.Core.Path.{◌≡◌, refl}
use mathlib.Core.Bool.{Bool, true, false}
use mathlib.Core.Option.{Option, none, some}
use ggjs.Common.Tests.{if◌then◌else◌}

-- A value; an access that C leaves undefined; the end of the fuel of the model.
pub data Run {ℓ} (A : Type ℓ) : Type ℓ where
  ok : A → Run A
  fault out_of_fuel : Run A

infixl 5 ◌>>=◌
abbrev pub ◌>>=◌ {ℓ κ} : {A : Type ℓ} {B : Type κ} → Run A → (A → Run B) → Run B
ok a >>= next = next a
fault >>= next = fault
out_of_fuel >>= next = out_of_fuel

abbrev pub or_fault {ℓ} : {A : Type ℓ} → Option A → Run A
or_fault none = fault
or_fault (some a) = ok a

-- The call ends with a value, and the value is as it should be.
pub data Ends {ℓ κ} {A : Type ℓ} (Good : A → Type κ) : Run A → Type (ℓ ⊔ κ) where
  ends : {a : A} → Good a → Ends Good (ok a)

module _ {ℓ κ} {A : Type ℓ} {Good : A → Type κ} where
  pub Ends-bind {ℓ' κ'} :
      {B : Type ℓ'} {Better : B → Type κ'} {r : Run A} {next : A → Run B}
      → Ends Good r
      → ((a : A) → Good a → Ends Better (next a))
      → Ends Better (r >>= next)
  Ends-bind (ends {a} g) f = f a g

  pub Ends-mono {κ'} :
      {Better : A → Type κ'} {r : Run A}
      → Ends Good r
      → ((a : A) → Good a → Better a)
      → Ends Better r
  Ends-mono (ends {a} g) f = ends (f a g)

  pub Ends-if :
      {x y : Run A} (b : Bool)
      → (b ≡ true → Ends Good x)
      → (b ≡ false → Ends Good y)
      → Ends Good (if b then x else y)
  Ends-if true f g = f refl
  Ends-if false f g = g refl

  pub Ends-value : {r : Run A} → Ends Good r → (a : A) × (r ≡ ok a) × Good a
  Ends-value (ends {a} g) = (a, refl, g)
