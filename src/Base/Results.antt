-- ===== src/Base/Results.antt =====
-- How a run of C code ends: with a value, at a failed assertion or an undefined access, or, in the
-- model only, without the fuel that bounds its loops.
use mathlib.Core.Path.{◌≡◌, refl}
use mathlib.Core.Option.{Option, none, some}
use mathlib.Core.Bool.{Bool, true, false}

pub data Result {ℓ} (A : Type ℓ) : Type ℓ where
  ok : A → Result A
  fault : Result A
  out_of_fuel : Result A

infixl 5 ◌>>=◌ ◌>>◌
abbrev pub ◌>>=◌ {ℓ κ} : {A : Type ℓ} {B : Type κ} → Result A → (A → Result B) → Result B
ok a >>= f = f a
fault >>= f = fault
out_of_fuel >>= f = out_of_fuel

abbrev pub ◌>>◌ {ℓ} : {B : Type ℓ} → Result (Unit {0}) → Result B → Result B
m >> k = m >>= λ _. k

-- `assert(b)`
abbrev pub assert : Bool → Result (Unit {0})
assert true = ok tt
assert false = fault

-- An access that must not meet NULL or leave its array.
abbrev pub from_option {ℓ} : {A : Type ℓ} → Option A → Result A
from_option none = fault
from_option (some a) = ok a

module _ {ℓ κ} {A : Type ℓ} {B : Type κ} where
  pub bind-cong :
      (m : Result A) (f g : A → Result B) → ((a : A) → f a ≡ g a) → (m >>= f) ≡ (m >>= g)
  bind-cong (ok a) f g h = h a
  bind-cong fault f g h = refl
  bind-cong out_of_fuel f g h = refl

  pub bind_assoc {ι} :
      {C : Type ι} (m : Result A) (f : A → Result B) (g : B → Result C)
      → ((m >>= f) >>= g) ≡ (m >>= λ a. f a >>= g)
  bind_assoc (ok a) f g = refl
  bind_assoc fault f g = refl
  bind_assoc out_of_fuel f g = refl
