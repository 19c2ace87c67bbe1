-- ===== src/Base/Outcome.antt =====
-- The outcome of a C routine that reports failure by a null pointer or by -1.
use mathlib.Core.Path.{◌≡◌, refl, sym, subst}
use mathlib.Core.Logic.{◌≢◌}
use mathlib.Core.Bool.{Bool, true, false}
use ps5torrent.Base.Tests.{if◌then◌else◌}

-- `null` is the failure that the caller sees; `fault` is an access outside its object, which C
-- leaves undefined; `out_of_fuel` has no counterpart in the program.
pub data Outcome {ℓ} (A : Type ℓ) : Type ℓ where
  ok : A → Outcome A
  null fault out_of_fuel : Outcome A

abbrev pub bind {ℓ κ} : {A : Type ℓ} {B : Type κ} → Outcome A → (A → Outcome B) → Outcome B
bind (ok a) f = f a
bind null f = null
bind fault f = fault
bind out_of_fuel f = out_of_fuel

infixl 5 ◌>>=◌
abbrev pub ◌>>=◌ {ℓ κ} : {A : Type ℓ} {B : Type κ} → Outcome A → (A → Outcome B) → Outcome B
m >>= f = bind m f

-- The run neither faulted nor ran out of fuel, `P` holds of its value if it has one, and it failed
-- only where `Good` does not hold.
pub data Runs {ℓ κ} {A : Type ℓ} (Good : Type 0) (P : A → Type κ) : Outcome A → Type (ℓ ⊔ κ) where
  holds : {a : A} → P a → Runs Good P (ok a)
  refused : ¬ Good → Runs Good P null

-- The same where failure is always allowed.
abbrev pub Ensures {ℓ κ} : {A : Type ℓ} → (A → Type κ) → Outcome A → Type (ℓ ⊔ κ)
Ensures P = Runs ⊥ P

module _ {ℓ κ} {A : Type ℓ} {P : A → Type κ} where
  pub Ensures-null : Ensures P null
  Ensures-null = refused (λ b. b)

module _ {ℓ κ} {A : Type ℓ} {Good : Type 0} {P : A → Type κ} where
  pub Runs-ok : {r : Outcome A} {a : A} → Runs Good P r → r ≡ ok a → P a
  Runs-ok (holds h) e = subst P (cc) h
  Runs-ok (refused n) e = cc

  pub Runs-ne_fault : {r : Outcome A} → Runs Good P r → r ≢ fault
  Runs-ne_fault (holds h) = cc
  Runs-ne_fault (refused n) = cc

  pub Runs-ne_out_of_fuel : {r : Outcome A} → Runs Good P r → r ≢ out_of_fuel
  Runs-ne_out_of_fuel (holds h) = cc
  Runs-ne_out_of_fuel (refused n) = cc

  pub Runs-some : {r : Outcome A} → Runs Good P r → Good → (a : A) × (r ≡ ok a) × P a
  Runs-some (holds {a} h) g = (a, refl, h)
  Runs-some (refused n) g = absurd (n g)

  pub Runs-if :
      (b : Bool) {x y : Outcome A}
      → (b ≡ true → Runs Good P x)
      → (b ≡ false → Runs Good P y)
      → Runs Good P (if b then x else y)
  Runs-if true hx hy = hx refl
  Runs-if false hx hy = hy refl

  pub Runs-bind {ℓ' κ'} :
      {B : Type ℓ'} {Q : B → Type κ'} {r : Outcome A} {f : A → Outcome B}
      → Runs Good P r
      → ((a : A) → P a → Runs Good Q (f a))
      → Runs Good Q (bind r f)
  Runs-bind (holds {a} h) k = k a h
  Runs-bind (refused n) k = refused n

  pub Runs-map {κ'} :
      {Q : A → Type κ'} {r : Outcome A} → Runs Good P r → ((a : A) → P a → Q a) → Runs Good Q r
  Runs-map (holds {a} h) k = holds (k a h)
  Runs-map (refused n) k = refused n

pub bind_ok {ℓ κ μ} :
    {A : Type ℓ} {B : Type κ} (P : Outcome B → Type μ) (r : Outcome A) {a : A} (f : A → Outcome B)
    → r ≡ ok a
    → P (f a)
    → P (bind r f)
bind_ok P r f e h = subst (λ r'. P (bind r' f)) (sym e) h
