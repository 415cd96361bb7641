-- ===== src/Common/Map.antt =====
-- Rust's HashMap with String keys, as an association list with its laws.
use self_kvm.Common.{
  ℕ, ◌≡◌, refl, List, [], ◌∷◌, Option, none, some, Bool, true, false, arith, ◌=l=◌, =l=_iff,
  if◌then◌else◌, Bool-cases, inl, inr, All,
}
use mathlib.Core.Option
use mathlib.Core.Path.{subst}

abbrev pub Name : Type 0
Name = List ℕ

abbrev pub Map : Type 0 → Type 0
Map V = List (Name × V)

module _ {V : Type 0} where
  abbrev pub lookup : Name → Map V → Option V
  lookup k [] = none
  lookup k ((j, v) ∷ m) = if j =l= k then some v else lookup k m

  abbrev pub insert : Name → V → Map V → Map V
  insert k v [] = (k, v) ∷ []
  insert k v ((j, w) ∷ m) = if j =l= k then (k, v) ∷ m else (j, w) ∷ insert k v m

  -- `if let Some(v) = m.get_mut(k) { *v = f(*v) }`
  abbrev pub modify : Name → (V → V) → Map V → Map V
  modify k f [] = []
  modify k f ((j, w) ∷ m) = if j =l= k then (j, f w) ∷ m else (j, w) ∷ modify k f m

  abbrev pub remove : Name → Map V → Map V
  remove k [] = []
  remove k ((j, w) ∷ m) = if j =l= k then remove k m else (j, w) ∷ remove k m

  abbrev pub has : Name → Map V → Bool
  has k m = elim (lookup k m) [ none ↦ false | some v ↦ true ]

  pub lookup-insert :
      (k j : Name) (v : V) (m : Map V)
      → lookup j (insert k v m) ≡ (if k =l= j then some v else lookup j m)
  lookup-insert k j v [] = refl
  lookup-insert k j v ((i, w) ∷ m) =
      ground (arith, =l=_iff k j, =l=_iff i k, =l=_iff i j, lookup-insert k j v m)

  pub lookup-modify :
      (k j : Name) (f : V → V) (m : Map V)
      → lookup j (modify k f m) ≡ (if k =l= j then Option.map f (lookup j m) else lookup j m)
  lookup-modify k j f [] = ground arith
  lookup-modify k j f ((i, w) ∷ m) =
      ground (arith, =l=_iff k j, =l=_iff i k, =l=_iff i j, lookup-modify k j f m)

  pub lookup-remove :
      (k j : Name) (m : Map V) → lookup j (remove k m) ≡ (if k =l= j then none else lookup j m)
  lookup-remove k j [] = ground arith
  lookup-remove k j ((i, w) ∷ m) =
      ground (arith, =l=_iff k j, =l=_iff i k, =l=_iff i j, lookup-remove k j m)

  some_inj : {v w : V} → some v ≡ some w → v ≡ w
  some_inj e = cc

  -- What holds of every value holds of a value that is found.
  pub lookup-All {ℓ} :
      (P : V → Type ℓ) (k : Name) (v : V) (m : Map V)
      → All (λ e. P e.1) m
      → lookup k m ≡ some v
      → P v
  lookup-All P k v [] h e = absurd (cc e)
  lookup-All P k v ((j, w) ∷ m) h e = elim (Bool-cases (j =l= k)) [
    | inl q ↦ subst P (some_inj (rw q at e)) h.0
    | inr q ↦ lookup-All P k v m h.1 (rw q at e)
  ]
