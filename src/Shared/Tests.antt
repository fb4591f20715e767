-- ===== src/Shared/Tests.antt =====
-- Boolean tests on numbers, on lists of numbers and on optional values, and the conditional.
use Prim.Native.Nat.{ℕ, ◌<◌, compare, Ordering}
use mathlib.Core.Path.{◌≡◌, refl}
use mathlib.Core.Logic.{◌↔◌, ◌⊎◌, inl, inr}
use mathlib.Core.Bool.{Bool, true, false, ◌&&◌}
use mathlib.Core.Option.{Option, none, some}
use mathlib.Core.List.{List, [], ◌∷◌}
use native.Mathlib.Omega.{arith}

-- These compute to `compare`, which the tactics read.
abbrev pub ltb : ℕ → ℕ → Bool
ltb a b = elim (compare a b) [ Ordering.lt ↦ true | _ ↦ false ]

abbrev pub leb : ℕ → ℕ → Bool
leb a b = elim (compare a b) [ Ordering.gt ↦ false | _ ↦ true ]

infix 50 ◌==◌
abbrev pub ◌==◌ : ℕ → ℕ → Bool
a == b = elim (compare a b) [ Ordering.eq ↦ true | _ ↦ false ]

infix 1 if◌then◌else◌
abbrev pub if◌then◌else◌ {ℓ} : {A : Type ℓ} → Bool → A → A → A
if true then x else y = x
if false then x else y = y

pub lt→ltb : (a b : ℕ) → a < b → ltb a b ≡ true
lt→ltb a b h = ground arith

pub ==_iff : (a b : ℕ) → ((a == b) ≡ true) ↔ (a ≡ b)
==_iff a b = ground arith

pub Bool-cases : (b : Bool) → (b ≡ true) ⊎ (b ≡ false)
Bool-cases true = inl refl
Bool-cases false = inr refl

pub Option-cases {ℓ} : {A : Type ℓ} (o : Option A) → (o ≡ none) ⊎ ((a : A) × (o ≡ some a))
Option-cases none = inl refl
Option-cases (some a) = inr (a, refl)

-- `==` on byte strings and texts.
infix 50 ◌=ₗ◌
unfoldable pub ◌=ₗ◌ : List ℕ → List ℕ → Bool
[] =ₗ [] = true
[] =ₗ (y ∷ ys) = false
(x ∷ xs) =ₗ [] = false
(x ∷ xs) =ₗ (y ∷ ys) = (x == y) && (xs =ₗ ys)

pub =ₗ_refl : (xs : List ℕ) → (xs =ₗ xs) ≡ true
unfolding ◌=ₗ◌
=ₗ_refl [] = refl
=ₗ_refl (x ∷ xs) = ground (arith, =ₗ_refl xs)

pub =ₗ_sound : (xs ys : List ℕ) → (xs =ₗ ys) ≡ true → xs ≡ ys
unfolding ◌=ₗ◌
=ₗ_sound [] [] h = refl
=ₗ_sound [] (y ∷ ys) h = cc
=ₗ_sound (x ∷ xs) [] h = cc
=ₗ_sound (x ∷ xs) (y ∷ ys) h = ground (arith, =ₗ_sound xs ys)

pub =ₗ_iff : (xs ys : List ℕ) → ((xs =ₗ ys) ≡ true) ↔ (xs ≡ ys)
=ₗ_iff xs ys = (=ₗ_sound xs ys, λ e. rw e (=ₗ_refl ys))

-- `a.as_deref() == Some(b)`.
abbrev pub is_some_of : Option (List ℕ) → List ℕ → Bool
is_some_of none ys = false
is_some_of (some xs) ys = xs =ₗ ys

pub is_some_of_iff : (o : Option (List ℕ)) (ys : List ℕ) → (is_some_of o ys ≡ true) ↔ (o ≡ some ys)
is_some_of_iff none ys = ground arith
is_some_of_iff (some xs) ys = ground (arith, =ₗ_iff xs ys)
