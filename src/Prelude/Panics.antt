-- ===== src/Prelude/Panics.antt =====
-- What running a piece of Rust code gives: a value, or a panic (an index or a slice out of bounds).
-- `out_of_fuel` is no behaviour of the program: it marks a loop whose bound was too small.
use mathlib.Core.Path.{◌≡◌, refl}
use mathlib.Core.Bool.{Bool, true, false}
use p2psdk.Prelude.Tests.{if◌then◌else◌}

pub data Outcome {ℓ} (A : Type ℓ) : Type ℓ where
  ret : A → Outcome A
  panic : Outcome A
  out_of_fuel : Outcome A

infixl 5 ◌>>=◌ ◌>>◌
abbrev pub ◌>>=◌ {ℓ κ} : {A : Type ℓ} {B : Type κ} → Outcome A → (A → Outcome B) → Outcome B
ret a >>= f = f a
panic >>= f = panic
out_of_fuel >>= f = out_of_fuel

abbrev pub ◌>>◌ {ℓ} : {B : Type ℓ} → Outcome (Unit {0}) → Outcome B → Outcome B
m >> k = m >>= λ _. k

-- The code returns a value, and the value satisfies `P`.
abbrev pub Returns {ℓ} : {A : Type ℓ} → (A → Type 0) → Outcome A → Type 0
Returns P (ret a) = P a
Returns P panic = ⊥
Returns P out_of_fuel = ⊥

pub Returns-eq {ℓ} :
    {A : Type ℓ} {P : A → Type 0} (o : Outcome A) → Returns P o → (a : A) × (o ≡ ret a) × P a
Returns-eq (ret a) h = (a, refl, h)
Returns-eq panic h = absurd h
Returns-eq out_of_fuel h = absurd h

pub Returns-of_eq {ℓ} :
    {A : Type ℓ} (P : A → Type 0) {o : Outcome A} {a : A} → o ≡ ret a → P a → Returns P o
Returns-of_eq P e h = rw e h

pub Returns-bind {ℓ κ} :
    {A : Type ℓ} {B : Type κ} (P : A → Type 0) (Q : B → Type 0) (o : Outcome A) (f : A → Outcome B)
    → Returns P o
    → ((a : A) → P a → Returns Q (f a))
    → Returns Q (o >>= f)
Returns-bind P Q (ret a) f h k = k a h
Returns-bind P Q panic f h k = absurd h
Returns-bind P Q out_of_fuel f h k = absurd h

pub Returns-if {ℓ} :
    {A : Type ℓ} (P : A → Type 0) (b : Bool) (x y : Outcome A)
    → Returns P x
    → Returns P y
    → Returns P (if b then x else y)
Returns-if P true x y h k = h
Returns-if P false x y h k = k

-- `Result<A, E>`
pub data Result {ℓ κ} (E : Type κ) (A : Type ℓ) : Type (ℓ ⊔ κ) where
  ok : A → Result E A
  err : E → Result E A
