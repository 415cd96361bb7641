-- ===== src/Proto/Sound.antt =====
-- What crates/kvm-proto/src/codec.rs reads from bytes is a value of the type that it is read as.
pub mod Messages
use self_kvm.Common.{
  length-take, ◌⊎◌, ℕ, zero, suc, ◌+◌, ◌*◌, ◌/◌, ◌%◌, ◌^◌, ◌≤◌, ◌<◌, ◌≡◌, refl, sym, ap, ◌∙◌, arith,
  List, [], ◌∷◌, ◌++◌, Bool, true, false, if◌then◌else◌, ltb, length, take, drop, Result, ok, err,
  Option, none, some, All, Bool-cases, Option-cases, inl, inr,
}
use mathlib.Core.Path.{subst}
use self_kvm.Common.Int.{
  ℤ, IsByte, IsU16, IsU32, IsU64, IsI8, IsI16, IsI32, u8_as_i8, u16_as_i16, u32_as_i32,
}
use self_kvm.Proto.Error.{ProtoError, too_long, invalid_utf8, ProtoResult}
use self_kvm.Proto.Bytes.{from_be, from_be-bound}
use self_kvm.Proto.Utf8.{Text, IsText, as_bytes, from_utf8}
use self_kvm.Proto.Utf8.Inverse.{from_utf8-inverse}
use self_kvm.Proto.Reader
use self_kvm.Proto.Message.{FitsText, FitsBytes}
use self_kvm.Proto.Reader.{
  Read, Reader, feed, first, return, fail, ◌>>=◌, take_bytes, u8, i8, u16, i16, u32, i32, u64,
  bytes, i32_loop, i32_vec, string, checked_utf8, max_field_len,
}

pub All-take {ℓ κ} :
    {A : Type ℓ} (P : A → Type κ) (n : ℕ) (xs : List A) → All P xs → All P (take n xs)
All-take P zero xs h = tt
All-take P (suc n) [] h = tt
All-take P (suc n) (x ∷ xs) h = (h.0, All-take P n xs h.1)

pub All-drop {ℓ κ} :
    {A : Type ℓ} (P : A → Type κ) (n : ℕ) (xs : List A) → All P xs → All P (drop n xs)
All-drop P zero xs h = h
All-drop P (suc n) [] h = tt
All-drop P (suc n) (x ∷ xs) h = All-drop P n xs h.1

-- What is read has the property, and bytes are left.
abbrev pub IsRead : {A : Type 0} → (A → Type 0) → ProtoResult (A × Reader) → Type 0
IsRead P (ok (a, r)) = P a × All IsByte r
IsRead P (err e) = Unit {0}

-- A reader of bytes whose values all have the property.
abbrev pub Reads : {A : Type 0} → (A → Type 0) → Read A → Type 0
Reads P m = (r : Reader) → All IsByte r → IsRead P (m r)

feed-IsRead :
    {A B : Type 0} (P : A → Type 0) (Q : B → Type 0) (f : A → Read B) (x : ProtoResult (A × Reader))
    → IsRead P x
    → ((a : A) → P a → Reads Q (f a))
    → IsRead Q (feed f x)
feed-IsRead P Q f (ok (a, r)) h k = k a h.0 r h.1
feed-IsRead P Q f (err e) h k = tt

pub then-Reads :
    {A B : Type 0} (P : A → Type 0) (Q : B → Type 0) (m : Read A) (f : A → Read B)
    → Reads P m
    → ((a : A) → P a → Reads Q (f a))
    → Reads Q (m >>= f)
then-Reads P Q m f h k r b = feed-IsRead P Q f (m r) (h r b) k

pub return-Reads : {A : Type 0} (P : A → Type 0) (a : A) → P a → Reads P (return a)
return-Reads P a h r b = (h, b)

pub if-Reads :
    {A : Type 0} (P : A → Type 0) (c : Bool) (m n : Read A)
    → Reads P m
    → Reads P n
    → Reads P (if c then m else n)
if-Reads P true m n h k = h
if-Reads P false m n h k = k

-- `n` bytes.
abbrev pub IsSlice : ℕ → List ℕ → Type 0
IsSlice n b = (length b ≡ n) × All IsByte b

pub take_bytes-Reads : (n : ℕ) → Reads (IsSlice n) (take_bytes n)
unfolding take_bytes
take_bytes-Reads n r b = elim (Bool-cases (ltb (length r) n)) [
  | inl e ↦ rw e tt
  | inr e ↦ rw e ((whole (ground arith), All-take IsByte n r b), All-drop IsByte n r b)
]
  where
    whole : n ≤ length r → length (take n r) ≡ n
    whole h = omega (arith, length-take n r)

first-IsByte : (a : List ℕ) → IsSlice 1 a → IsByte (first a)
first-IsByte [] h = omega arith
first-IsByte (x ∷ xs) h = h.1.0

from_be-below : (n : ℕ) (a : List ℕ) → IsSlice n a → from_be a < 256 ^ n
from_be-below n a h = subst (λ (k : ℕ). from_be a < 256 ^ k) h.0 (from_be-bound a h.1)

pub u8-Reads : Reads IsByte u8
unfolding u8
u8-Reads =
    then-Reads (IsSlice 1) IsByte (take_bytes 1) _ (take_bytes-Reads 1)
      (λ a h. return-Reads IsByte _ (first-IsByte a h))

pub i8-Reads : Reads IsI8 i8
unfolding i8
i8-Reads =
    then-Reads IsByte IsI8 u8 _ u8-Reads
      (λ v h. return-Reads IsI8 (u8_as_i8 v) (unfold u8_as_i8 in ground arith))

pub u16-Reads : Reads IsU16 u16
unfolding u16
u16-Reads =
    then-Reads (IsSlice 2) IsU16 (take_bytes 2) _ (take_bytes-Reads 2)
      (λ a h. return-Reads IsU16 _ (from_be-below 2 a h))

pub i16-Reads : Reads IsI16 i16
unfolding i16
i16-Reads =
    then-Reads IsU16 IsI16 u16 _ u16-Reads
      (λ v h. return-Reads IsI16 (u16_as_i16 v) (unfold u16_as_i16 in ground arith))

pub u32-Reads : Reads IsU32 u32
unfolding u32
u32-Reads =
    then-Reads (IsSlice 4) IsU32 (take_bytes 4) _ (take_bytes-Reads 4)
      (λ a h. return-Reads IsU32 _ (from_be-below 4 a h))

i32-Reads : Reads IsI32 i32
unfolding i32
i32-Reads =
    then-Reads IsU32 IsI32 u32 _ u32-Reads
      (λ v h. return-Reads IsI32 (u32_as_i32 v) (unfold u32_as_i32 in ground arith))

pub u64-Reads : Reads IsU64 u64
unfolding u64
u64-Reads =
    then-Reads (IsSlice 8) IsU64 (take_bytes 8) _ (take_bytes-Reads 8)
      (λ a h. return-Reads IsU64 _ (from_be-below 8 a h))

pub fail-Reads : {A : Type 0} (P : A → Type 0) (e : ProtoError) → Reads P (fail e)
fail-Reads P e r b = tt

pub bytes-Reads : Reads FitsBytes bytes
unfolding bytes
bytes-Reads = then-Reads IsU32 FitsBytes u32 _ u32-Reads λ len h.
    elim (Bool-cases (ltb max_field_len len)) [
      | inl e ↦ rw e (fail-Reads FitsBytes (too_long len max_field_len))
      | inr e ↦ rw e (λ r b. slice (take_bytes len r) (ground arith) (take_bytes-Reads len r b))
    ]
  where
    slice :
        {len : ℕ} (x : ProtoResult (List ℕ × Reader))
        → len ≤ max_field_len
        → IsRead (IsSlice len) x
        → IsRead FitsBytes x
    slice (ok (a, r)) k h = ((h.0.1, omega (arith, h.0.0)), h.1)
    slice (err e) k h = tt

abbrev IsVector : ℕ → List ℤ → Type 0
IsVector n xs = All IsI32 xs × (length xs ≡ n)

i32_loop-Reads : (n : ℕ) → Reads (IsVector n) (i32_loop n)
unfolding i32_loop
i32_loop-Reads zero = return-Reads (IsVector 0) [] (tt, refl)
i32_loop-Reads (suc n) = then-Reads IsI32 (IsVector (suc n)) i32 _ i32-Reads λ x h.
    then-Reads (IsVector n) (IsVector (suc n)) (i32_loop n) _ (i32_loop-Reads n)
      λ xs k. return-Reads (IsVector (suc n)) (x ∷ xs) ((h, k.0), ap suc k.1)

abbrev pub FitsVector : List ℤ → Type 0
FitsVector opts = All IsI32 opts × (length opts ≤ max_field_len / 4)

pub i32_vec-Reads : Reads FitsVector i32_vec
unfolding i32_vec
i32_vec-Reads = then-Reads IsU32 FitsVector u32 _ u32-Reads λ n h.
    elim (Bool-cases (ltb (max_field_len / 4) n)) [
      | inl e ↦ rw e (fail-Reads FitsVector (too_long n (max_field_len / 4)))
      | inr e ↦ rw e (λ r b. vector (i32_loop n r) (ground arith) (i32_loop-Reads n r b))
    ]
  where
    vector :
        {n : ℕ} (x : ProtoResult (List ℤ × Reader))
        → n ≤ max_field_len / 4
        → IsRead (IsVector n) x
        → IsRead FitsVector x
    vector (ok (a, r)) k h = ((h.0.0, omega (arith, h.0.1)), h.1)
    vector (err e) k h = tt

pub string-Reads : Reads FitsText string
unfolding string
string-Reads = then-Reads FitsBytes FitsText bytes _ bytes-Reads λ b h.
    elim (Option-cases (from_utf8 b)) [
      | inl e ↦ rw e (fail-Reads FitsText invalid_utf8)
      | inr (s, e) ↦ rw e (return-Reads FitsText s (text s b h (from_utf8-inverse b s e)))
    ]
  where
    text : (s : Text) (b : List ℕ) → FitsBytes b → IsText s × (as_bytes s ≡ b) → FitsText s
    text s b h k = (k.0, rw (k.1) h.1)
