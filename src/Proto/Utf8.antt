-- ===== src/Proto/Utf8.antt =====
-- Rust's String: a list of Unicode scalar values, with its UTF-8 bytes. The standard library's
-- `str::as_bytes` and `String::from_utf8`, which crates/kvm-proto/src/codec.rs calls.
pub mod Inverse
use self_kvm.Common.{
  ap, All-append, ◌∙◌, ℕ, zero, suc, ◌+◌, ◌-◌, ◌*◌, ◌/◌, ◌%◌, ◌≤◌, ◌<◌, ◌≡◌, refl, ◌⊎◌, Bool, ◌&&◌,
  not, List, [], ◌∷◌, ◌++◌, Option, none, some, arith, ltb, leb, if◌then◌else◌, length, All,
  length-append,
}
use self_kvm.Common.Int.{IsByte}
use mathlib.Core.Option

abbrev pub Text : Type 0
Text = List ℕ

-- A `char`: a code point that is no surrogate.
abbrev pub IsScalar : ℕ → Type 0
IsScalar c = (c < 0x110000) × ((c < 0xD800) ⊎ (0xE000 ≤ c))

abbrev pub IsText : Text → Type 0
IsText = All IsScalar

unfoldable pub char_bytes : ℕ → List ℕ
char_bytes c =
    if ltb c 0x80
    then c ∷ []
    else if ltb c 0x800
    then (0xC0 + c / 64) ∷ (0x80 + c % 64) ∷ []
    else if ltb c 0x10000
    then (0xE0 + c / 4096) ∷ (0x80 + c / 64 % 64) ∷ (0x80 + c % 64) ∷ []
    else (0xF0 + c / 262144) ∷ (0x80 + c / 4096 % 64) ∷ (0x80 + c / 64 % 64) ∷ (0x80 + c % 64) ∷ []

unfoldable pub as_bytes : Text → List ℕ
unfolding char_bytes
as_bytes [] = []
as_bytes (c ∷ s) = char_bytes c ++ as_bytes s

is_tail : ℕ → Bool
is_tail b = leb 0x80 b && ltb b 0xC0

two_bytes : ℕ → List ℕ → Option (ℕ × List ℕ)
unfolding is_tail
two_bytes a (b ∷ r) = if is_tail b then some ((a - 0xC0) * 64 + (b - 0x80), r) else none
two_bytes a [] = none

three_bytes : ℕ → List ℕ → Option (ℕ × List ℕ)
unfolding is_tail
three_bytes a (b ∷ c ∷ r) =
    let v = (a - 0xE0) * 4096 + (b - 0x80) * 64 + (c - 0x80) in
    if is_tail b && is_tail c && leb 0x800 v && not (leb 0xD800 v && ltb v 0xE000)
    then some (v, r)
    else none
three_bytes a _ = none

four_bytes : ℕ → List ℕ → Option (ℕ × List ℕ)
unfolding is_tail
four_bytes a (b ∷ c ∷ d ∷ r) =
    let v = (a - 0xF0) * 262144 + (b - 0x80) * 4096 + (c - 0x80) * 64 + (d - 0x80) in
    if is_tail b && is_tail c && is_tail d && leb 0x10000 v && ltb v 0x110000
    then some (v, r)
    else none
four_bytes a _ = none

-- One character and what follows it: shortest forms only, no surrogates.
next_char : List ℕ → Option (ℕ × List ℕ)
unfolding two_bytes three_bytes four_bytes
next_char [] = none
next_char (a ∷ r) =
    if ltb a 0x80
    then some (a, r)
    else if ltb a 0xC2
    then none
    else if ltb a 0xE0
    then two_bytes a r
    else if ltb a 0xF0
    then three_bytes a r
    else if ltb a 0xF5
    then four_bytes a r
    else none

utf8_loop : ℕ → List ℕ → Option Text
utf8_loop fuel [] = some []
utf8_loop zero (a ∷ r) = none
utf8_loop (suc fuel) (a ∷ r) = elim (next_char (a ∷ r)) [
  | none ↦ none
  | some (c, rest) ↦ Option.map (λ s. c ∷ s) (utf8_loop fuel rest)
]

-- Each character takes a byte at least, so as many rounds as there are bytes are enough.
unfoldable pub from_utf8 : List ℕ → Option Text
unfolding utf8_loop next_char
from_utf8 bs = utf8_loop (length bs) bs

next_char-char_bytes :
    (c : ℕ) (rest : List ℕ) → IsScalar c → next_char (char_bytes c ++ rest) ≡ some (c, rest)
unfolding next_char char_bytes
next_char-char_bytes c rest h = ground arith

length-char_bytes : (c : ℕ) → (1 ≤ length (char_bytes c)) × (length (char_bytes c) ≤ 4)
unfolding char_bytes
length-char_bytes c = ground arith

char_bytes-IsByte : (c : ℕ) → IsScalar c → All IsByte (char_bytes c)
unfolding char_bytes
char_bytes-IsByte c h = ground arith

pub length-as_bytes : (s : Text) → length s ≤ length (as_bytes s)
unfolding as_bytes
length-as_bytes [] = omega arith
length-as_bytes (c ∷ s) =
    omega (arith, length-append (char_bytes c) (as_bytes s), length-char_bytes c, length-as_bytes s)

pub as_bytes-IsByte : (s : Text) → IsText s → All IsByte (as_bytes s)
unfolding as_bytes
as_bytes-IsByte [] h = tt
as_bytes-IsByte (c ∷ s) h =
    All-append IsByte (char_bytes c) (as_bytes s) (char_bytes-IsByte c h.0) (as_bytes-IsByte s h.1)

-- One round on what begins with a character.
utf8_loop_step :
    (fuel c : ℕ) (rest : List ℕ)
    → IsScalar c
    → utf8_loop (suc fuel) (char_bytes c ++ rest) ≡ Option.map (λ s. c ∷ s) (utf8_loop fuel rest)
unfolding utf8_loop
utf8_loop_step fuel c rest h = go (char_bytes c ++ rest) (next_char-char_bytes c rest h)
  where
    go :
        (bs : List ℕ)
        → next_char bs ≡ some (c, rest)
        → utf8_loop (suc fuel) bs ≡ Option.map (λ s. c ∷ s) (utf8_loop fuel rest)
    go [] e = unfold next_char in cc e
    go (a ∷ r) e = rw (e, utf8_loop)

utf8_loop-as_bytes :
    (fuel : ℕ) (s : Text) → IsText s → length s ≤ fuel → utf8_loop fuel (as_bytes s) ≡ some s
unfolding as_bytes
utf8_loop-as_bytes fuel [] h k = unfold utf8_loop in refl
utf8_loop-as_bytes zero (c ∷ s) h k = absurd (omega arith)
utf8_loop-as_bytes (suc fuel) (c ∷ s) h k =
    utf8_loop_step fuel c (as_bytes s) h.0
    ∙ ap (Option.map (λ t. c ∷ t)) (utf8_loop-as_bytes fuel s h.1 (omega arith))

-- Every text is read back from its bytes.
pub from_utf8-as_bytes : (s : Text) → IsText s → from_utf8 (as_bytes s) ≡ some s
unfolding from_utf8
from_utf8-as_bytes s h = utf8_loop-as_bytes _ s h (length-as_bytes s)
