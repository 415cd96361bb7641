-- ===== src/Common/Tests.antt =====
-- Boolean tests on the native numbers and on lists of them, and the conditional.
use Prim.Native.Nat.{ℕ, ◌≤◌, ◌<◌, compare, Ordering}
use mathlib.Core.Path.{◌≡◌, refl}
use mathlib.Core.Logic.{◌↔◌, ◌⊎◌, inl, inr}
use mathlib.Core.Bool.{Bool, true, false, ◌&&◌}
use mathlib.Core.Option.{Option, none, some}
use mathlib.Core.List.{List, [], ◌∷◌}
use native.Mathlib.Omega.{arith}

abbrev pub ltb : ℕ → ℕ → Bool
ltb a b = elim (compare a b) [ Ordering.lt ↦ true | _ ↦ false ]

abbrev pub leb : ℕ → ℕ → Bool
leb a b = elim (compare a b) [ Ordering.gt ↦ false | _ ↦ true ]

infix 50 ◌==◌
abbrev pub ◌==◌ : ℕ → ℕ → Bool
a == b = elim (compare a b) [ Ordering.eq ↦ true | _ ↦ false ]

infix 1 if◌then◌else◌
abbrev pub if◌then◌else◌ {ℓ} : {A : Type ℓ} → Bool → A → A → A
if true then x else y = x
if false then x else y = y

pub ltb→lt : (a b : ℕ) → ltb a b ≡ true → a < b
ltb→lt a b h = ground arith

pub lt→ltb : (a b : ℕ) → a < b → ltb a b ≡ true
lt→ltb a b h = ground arith

pub le→ltb : (a b : ℕ) → b ≤ a → ltb a b ≡ false
le→ltb a b h = ground arith

pub leb→le : (a b : ℕ) → leb a b ≡ true → a ≤ b
leb→le a b h = ground arith

pub ==_iff : (a b : ℕ) → ((a == b) ≡ true) ↔ (a ≡ b)
==_iff a b = ground arith

pub ==_refl : (a : ℕ) → (a == a) ≡ true
==_refl a = ground arith

-- To split on a computed value and keep the equation.
pub Bool-cases : (b : Bool) → (b ≡ true) ⊎ (b ≡ false)
Bool-cases true = inl refl
Bool-cases false = inr refl

pub Option-cases {ℓ} : {A : Type ℓ} (o : Option A) → (o ≡ none) ⊎ ((a : A) × (o ≡ some a))
Option-cases none = inl refl
Option-cases (some a) = inr (a, refl)

pub &&_false : (b : Bool) → (b && false) ≡ false
&&_false true = refl
&&_false false = refl

-- Equality of byte strings and of texts.
infix 50 ◌=l=◌
abbrev pub ◌=l=◌ : List ℕ → List ℕ → Bool
[] =l= [] = true
[] =l= (y ∷ ys) = false
(x ∷ xs) =l= [] = false
(x ∷ xs) =l= (y ∷ ys) = x == y && xs =l= ys

pub =l=_refl : (xs : List ℕ) → (xs =l= xs) ≡ true
=l=_refl [] = refl
=l=_refl (x ∷ xs) = ground (arith, =l=_refl xs)

pub =l=→eq : (xs ys : List ℕ) → (xs =l= ys) ≡ true → xs ≡ ys
=l=→eq [] [] h = refl
=l=→eq [] (y ∷ ys) h = cc
=l=→eq (x ∷ xs) [] h = cc
=l=→eq (x ∷ xs) (y ∷ ys) h = ground (arith, =l=→eq xs ys)

pub =l=_iff : (xs ys : List ℕ) → ((xs =l= ys) ≡ true) ↔ (xs ≡ ys)
=l=_iff xs ys = (=l=→eq xs ys, λ e. rw e (=l=_refl ys))
