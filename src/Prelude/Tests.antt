-- ===== src/Prelude/Tests.antt =====
-- Boolean tests on the native numbers and on byte strings, and the conditional.
use Prim.Native.Nat.{ℕ, zero, suc, ◌≤◌, ◌<◌, compare, Ordering}
use mathlib.Core.Path.{◌≡◌, refl}
use mathlib.Core.Logic.{◌↔◌, ◌⊎◌, inl, inr}
use mathlib.Core.Bool.{Bool, true, false, ◌&&◌}
use mathlib.Core.Option.{Option, none, some}
use mathlib.Core.List.{List, [], ◌∷◌}
use native.Mathlib.Omega.{arith}
use p2psdk.Prelude.Lists.{All, length}

-- These compute to `compare`, which `ground` and `grind` read with no lemma listed.
abbrev pub ltb : ℕ → ℕ → Bool
ltb a b = elim (compare a b) [ Ordering.lt ↦ true | _ ↦ false ]

abbrev pub leb : ℕ → ℕ → Bool
leb a b = elim (compare a b) [ Ordering.gt ↦ false | _ ↦ true ]

infix 50 ◌==◌
abbrev pub ◌==◌ : ℕ → ℕ → Bool
a == b = elim (compare a b) [ Ordering.eq ↦ true | _ ↦ false ]

infix 1 if◌then◌else◌
abbrev pub if◌then◌else◌ {ℓ} : {A : Type ℓ} → Bool → A → A → A
if true then x else y = x
if false then x else y = y

pub ltb→lt : (a b : ℕ) → ltb a b ≡ true → a < b
ltb→lt a b h = ground arith

pub leb→le : (a b : ℕ) → leb a b ≡ true → a ≤ b
leb→le a b h = ground arith

pub le→leb : (a b : ℕ) → a ≤ b → leb a b ≡ true
le→leb a b h = ground arith

pub leb-false : (a b : ℕ) → b < a → leb a b ≡ false
leb-false a b h = ground arith

pub ltb-false : (a b : ℕ) → b ≤ a → ltb a b ≡ false
ltb-false a b h = ground arith

pub ==_iff : (a b : ℕ) → ((a == b) ≡ true) ↔ (a ≡ b)
==_iff a b = ground arith

-- To split on a computed value and keep the equation.
pub Bool-cases : (b : Bool) → (b ≡ true) ⊎ (b ≡ false)
Bool-cases true = inl refl
Bool-cases false = inr refl

pub Option-cases {ℓ} : {A : Type ℓ} (o : Option A) → (o ≡ none) ⊎ ((a : A) × (o ≡ some a))
Option-cases none = inl refl
Option-cases (some a) = inr (a, refl)

-- `==` of two byte strings.
unfoldable pub eq_bytes : List ℕ → List ℕ → Bool
eq_bytes [] [] = true
eq_bytes [] (b ∷ bs) = false
eq_bytes (a ∷ as') [] = false
eq_bytes (a ∷ as') (b ∷ bs) = a == b && eq_bytes as' bs

pub eq_bytes_refl : (xs : List ℕ) → eq_bytes xs xs ≡ true
unfolding eq_bytes
eq_bytes_refl [] = refl
eq_bytes_refl (x ∷ xs) = ground (arith, eq_bytes_refl xs)

pub eq_bytes_sound : (xs ys : List ℕ) → eq_bytes xs ys ≡ true → xs ≡ ys
unfolding eq_bytes
eq_bytes_sound [] [] h = refl
eq_bytes_sound [] (y ∷ ys) h = cc
eq_bytes_sound (x ∷ xs) [] h = cc
eq_bytes_sound (x ∷ xs) (y ∷ ys) h = ground (arith, eq_bytes_sound xs ys)

abbrev pub next_index : Option ℕ → Option ℕ
next_index none = none
next_index (some i) = some (suc i)

-- The index of the first element that passes a test: `iter().position`.
module _ {ℓ} {A : Type ℓ} where
  unfoldable pub position : (A → Bool) → List A → Option ℕ
  position p [] = none
  position p (x ∷ xs) = if p x then some 0 else next_index (position p xs)

  -- `i` is the index of the first element that passes.
  abbrev pub FirstAt : (A → Bool) → List A → ℕ → Type 0
  FirstAt p [] i = ⊥
  FirstAt p (x ∷ xs) zero = p x ≡ true
  FirstAt p (x ∷ xs) (suc i) = (p x ≡ false) × FirstAt p xs i

  abbrev pub FoundBy : (A → Bool) → List A → Option ℕ → Type 0
  FoundBy p xs none = All (λ x. p x ≡ false) xs
  FoundBy p xs (some i) = FirstAt p xs i

  FoundBy-next :
      (p : A → Bool) (x : A) (xs : List A) (o : Option ℕ)
      → p x ≡ false
      → FoundBy p xs o
      → FoundBy p (x ∷ xs) (next_index o)
  FoundBy-next p x xs none e h = (e, h)
  FoundBy-next p x xs (some j) e h = (e, h)

  pub position-FoundBy : (p : A → Bool) (xs : List A) → FoundBy p xs (position p xs)
  unfolding position
  position-FoundBy p [] = tt
  position-FoundBy p (x ∷ xs) = elim (Bool-cases (p x)) [
    | inl e ↦ rw e e
    | inr e ↦ rw e (FoundBy-next p x xs (position p xs) e (position-FoundBy p xs))
  ]

  pub position-FirstAt :
      (p : A → Bool) (xs : List A) {i : ℕ} → position p xs ≡ some i → FirstAt p xs i
  position-FirstAt p xs e = rw e at (position-FoundBy p xs)

  pub position-none :
      (p : A → Bool) (xs : List A) → position p xs ≡ none → All (λ x. p x ≡ false) xs
  position-none p xs e = rw e at (position-FoundBy p xs)

  pub FirstAt-lt : (p : A → Bool) (xs : List A) (i : ℕ) → FirstAt p xs i → i < length xs
  FirstAt-lt p [] i h = absurd h
  FirstAt-lt p (x ∷ xs) zero h = omega arith
  FirstAt-lt p (x ∷ xs) (suc i) h = omega (arith, FirstAt-lt p xs i h.1)
