-- ===== src/Proto/Utf8/Inverse.antt =====
-- A text that `String::from_utf8` gives has the bytes that it was read from; crates/kvm-proto/src/codec.rs
-- relies on it.
use self_kvm.Common.{
  ℕ, zero, suc, ◌≤◌, ◌<◌, ◌≡◌, refl, sym, ap, ◌∙◌, arith, List, [], ◌∷◌, ◌++◌, ltb, length, none,
  some, Option-cases, Bool-cases, inl, inr,
}
use mathlib.Core.Option
use mathlib.Core.Path.{subst}
use self_kvm.Proto.Utf8.{
  Text, IsText, IsScalar, as_bytes, from_utf8, char_bytes, next_char, two_bytes, three_bytes,
  four_bytes, is_tail, utf8_loop,
}

-- What a reader of one character gives: a scalar value whose bytes are those that it was read from.
abbrev IsChar : List ℕ → ℕ → List ℕ → Type 0
IsChar bs c rest = IsScalar c × (bs ≡ char_bytes c ++ rest)

two_bytes-IsChar :
    (a : ℕ) (r : List ℕ) (c : ℕ) (rest : List ℕ)
    → 0xC2 ≤ a
    → a < 0xE0
    → two_bytes a r ≡ some (c, rest)
    → IsChar (a ∷ r) c rest
unfolding two_bytes is_tail char_bytes
two_bytes-IsChar a [] c rest h k e = absurd (cc e)
two_bytes-IsChar a (b ∷ r) c rest h k e = ground arith

three_bytes-IsChar :
    (a : ℕ) (r : List ℕ) (c : ℕ) (rest : List ℕ)
    → 0xE0 ≤ a
    → a < 0xF0
    → three_bytes a r ≡ some (c, rest)
    → IsChar (a ∷ r) c rest
unfolding three_bytes is_tail char_bytes
three_bytes-IsChar a [] c rest h k e = absurd (cc e)
three_bytes-IsChar a (x ∷ []) c rest h k e = absurd (cc e)
three_bytes-IsChar a (x ∷ y ∷ r) c rest h k e = ground arith

four_bytes-IsChar :
    (a : ℕ) (r : List ℕ) (c : ℕ) (rest : List ℕ)
    → 0xF0 ≤ a
    → a < 0xF5
    → four_bytes a r ≡ some (c, rest)
    → IsChar (a ∷ r) c rest
unfolding four_bytes is_tail char_bytes
four_bytes-IsChar a [] c rest h k e = absurd (cc e)
four_bytes-IsChar a (x ∷ []) c rest h k e = absurd (cc e)
four_bytes-IsChar a (x ∷ y ∷ []) c rest h k e = absurd (cc e)
four_bytes-IsChar a (x ∷ y ∷ z ∷ r) c rest h k e = ground arith

next_char-IsChar :
    (a : ℕ) (r : List ℕ) (c : ℕ) (rest : List ℕ)
    → next_char (a ∷ r) ≡ some (c, rest)
    → IsChar (a ∷ r) c rest
unfolding next_char
next_char-IsChar a r c rest e = elim (Bool-cases (ltb a 0x80)) [
  | inl p ↦ ascii a r c rest (ground arith) (ground arith)
  | inr p ↦ elim (Bool-cases (ltb a 0xE0)) [
    | inl q ↦ two_bytes-IsChar a r c rest (ground arith) (ground arith) (ground arith)
    | inr q ↦ elim (Bool-cases (ltb a 0xF0)) [
      | inl s ↦ three_bytes-IsChar a r c rest (ground arith) (ground arith) (ground arith)
      | inr s ↦ four_bytes-IsChar a r c rest (ground arith) (ground arith) (ground arith)
    ]
  ]
]
  where
    ascii :
        (x : ℕ) (xs : List ℕ) (d : ℕ) (ys : List ℕ)
        → x < 0x80
        → (x ≡ d) × (xs ≡ ys)
        → IsChar (x ∷ xs) d ys
    ascii x xs d ys h k = unfold char_bytes in ground arith

abbrev IsFrom : List ℕ → Text → Type 0
IsFrom bs s = IsText s × (as_bytes s ≡ bs)

loop-none :
    (fuel a : ℕ) (r : List ℕ) → next_char (a ∷ r) ≡ none → utf8_loop (suc fuel) (a ∷ r) ≡ none
unfolding utf8_loop
loop-none fuel a r n = rw (n, utf8_loop)

loop-some :
    (fuel a : ℕ) (r : List ℕ) (c : ℕ) (rest : List ℕ)
    → next_char (a ∷ r) ≡ some (c, rest)
    → utf8_loop (suc fuel) (a ∷ r) ≡ Option.map (λ t. c ∷ t) (utf8_loop fuel rest)
unfolding utf8_loop
loop-some fuel a r c rest n = rw (n, utf8_loop)

IsFrom-cons :
    (bs rest : List ℕ) (c : ℕ) (t s : Text)
    → IsChar bs c rest
    → IsFrom rest t
    → c ∷ t ≡ s
    → IsFrom bs s
unfolding as_bytes
IsFrom-cons bs rest c t s h k e =
    subst (IsFrom bs) e ((h.0, k.0), ap (λ (x : List ℕ). char_bytes c ++ x) k.1 ∙ sym h.1)

some-inj {ℓ} : {A : Type ℓ} {x y : A} → some x ≡ some y → x ≡ y
some-inj e = cc e

none-some {ℓ} : {A : Type ℓ} {x : A} → ¬ (none ≡ some x)
none-some e = cc e

utf8_loop-inverse : (fuel : ℕ) (bs : List ℕ) (s : Text) → utf8_loop fuel bs ≡ some s → IsFrom bs s
unfolding utf8_loop as_bytes
utf8_loop-inverse fuel [] [] e = (tt, refl)
utf8_loop-inverse fuel [] (c ∷ s) e = absurd (cc e)
utf8_loop-inverse zero (a ∷ r) s e = absurd (cc e)
utf8_loop-inverse (suc fuel) (a ∷ r) s e = elim (Option-cases (next_char (a ∷ r))) [
  | inl n ↦ absurd (none-some (sym (loop-none fuel a r n) ∙ e))
  | inr ((c, rest), n) ↦ elim (Option-cases (utf8_loop fuel rest)) [
    | inl l ↦
        absurd
          (none-some (ap (Option.map (λ t. c ∷ t)) (sym l) ∙ sym (loop-some fuel a r c rest n) ∙ e))
    | inr (t, l) ↦
        IsFrom-cons (a ∷ r) rest c t s (next_char-IsChar a r c rest n)
          (utf8_loop-inverse fuel rest t l)
          (some-inj (ap (Option.map (λ t. c ∷ t)) (sym l) ∙ sym (loop-some fuel a r c rest n) ∙ e))
  ]
]

-- A text that is read has scalar values for characters, and the bytes that it was read from.
pub from_utf8-inverse :
    (bs : List ℕ) (s : Text) → from_utf8 bs ≡ some s → IsText s × (as_bytes s ≡ bs)
unfolding from_utf8
from_utf8-inverse bs s e = utf8_loop-inverse (length bs) bs s e
