-- ===== src/Base/Outcome.antt =====
-- What a piece of the program does: it returns, it ends the process, or it does something that C
-- leaves undefined (an access outside an object, through a null or an unset pointer).
use Prim.Native.Nat.{ℕ}
use mathlib.Core.Path.{◌≡◌, refl}
use mathlib.Core.List.{List}
use mathlib.Core.Option.{Option, none, some}
use cmon.Base.Lists.{get_elem?}

pub data Run {ℓ} (A : Type ℓ) : Type ℓ where
  ok : A → Run A
  exited : ℕ → Run A
  fault : Run A

infixl 5 ◌>>=◌ ◌>>◌
abbrev pub ◌>>=◌ {ℓ κ} : {A : Type ℓ} {B : Type κ} → Run A → (A → Run B) → Run B
fault >>= next = fault
exited code >>= next = exited code
ok result >>= next = next result

abbrev pub ◌>>◌ {ℓ} : {B : Type ℓ} → Run (Unit {0}) → Run B → Run B
first >> second = first >>= λ _. second

module _ {ℓ κ} {A : Type ℓ} {B : Type κ} where
  pub >>=-cong : (r : Run A) {f g : A → Run B} → ((a : A) → f a ≡ g a) → (r >>= f) ≡ (r >>= g)
  >>=-cong (ok a) h = h a
  >>=-cong (exited n) h = refl
  >>=-cong fault h = refl

  pub >>=-assoc {ι} :
      {C : Type ι} (r : Run A) (f : A → Run B) (g : B → Run C)
      → ((r >>= f) >>= g) ≡ (r >>= λ a. f a >>= g)
  >>=-assoc (ok a) f g = refl
  >>=-assoc (exited n) f g = refl
  >>=-assoc fault f g = refl

-- The run returns, and what it returns satisfies `P`.
abbrev pub Returns {ℓ} : {A : Type ℓ} → (A → Type 0) → Run A → Type 0
Returns P (ok a) = P a
Returns P (exited n) = ⊥
Returns P fault = ⊥

-- Reading one element of an object.
abbrev pub of_option {ℓ} : {A : Type ℓ} → Option A → Run A
of_option none = fault
of_option (some v) = ok v

abbrev pub fetch {ℓ} : {A : Type ℓ} → List A → ℕ → Run A
fetch xs i = of_option (get_elem? xs i)
