-- ===== src/Common/Int.antt =====
-- Signed integers over the native numbers, and Rust's arithmetic and casts on them.
-- Sums and orders go through the two parts of an integer, which are numbers that `omega` reads.
use self_kvm.Common.{
  ℕ, suc, ◌+◌, ◌-◌, ◌*◌, ◌/◌, ◌%◌, ◌≤◌, ◌<◌, ◌≡◌, refl, Bool, true, arith, ltb, leb, ◌==◌,
  if◌then◌else◌,
}

-- `negsuc n` is -(n + 1).
pub data ℤ : Type 0 where
  pos : ℕ → ℤ
  negsuc : ℕ → ℤ

abbrev pub pos_part : ℤ → ℕ
pos_part (pos n) = n
pos_part (negsuc n) = 0

abbrev pub neg_part : ℤ → ℕ
neg_part (pos n) = 0
neg_part (negsuc n) = suc n

-- a - b, as an integer.
abbrev pub sub_ℕ : ℕ → ℕ → ℤ
sub_ℕ a b = if leb b a then pos (a - b) else negsuc (b - a - 1)

infixl 65 ◌+ℤ◌ ◌-ℤ◌
infixl 70 ◌*ℤ◌ ◌/ℤ◌
infix 50 ◌≤ℤ◌ ◌<ℤ◌
unfoldable pub ◌+ℤ◌ : ℤ → ℤ → ℤ
a +ℤ b = sub_ℕ (pos_part a + pos_part b) (neg_part a + neg_part b)

unfoldable pub ◌-ℤ◌ : ℤ → ℤ → ℤ
a -ℤ b = sub_ℕ (pos_part a + neg_part b) (neg_part a + pos_part b)

unfoldable pub ◌*ℤ◌ : ℤ → ℤ → ℤ
a *ℤ b =
    sub_ℕ (pos_part a * pos_part b + neg_part a * neg_part b)
      (pos_part a * neg_part b + neg_part a * pos_part b)

-- Rust's `/` drops the fraction: the quotient of the magnitudes, with the sign of the product.
unfoldable pub ◌/ℤ◌ : ℤ → ℤ → ℤ
◌/ℤ◌ (pos a) (pos b) = pos (a / b)
◌/ℤ◌ (pos a) (negsuc b) = sub_ℕ 0 (a / suc b)
◌/ℤ◌ (negsuc a) (pos b) = sub_ℕ 0 (suc a / b)
◌/ℤ◌ (negsuc a) (negsuc b) = pos (suc a / suc b)

abbrev pub ◌≤ℤ◌ : ℤ → ℤ → Type 0
a ≤ℤ b = pos_part a + neg_part b ≤ pos_part b + neg_part a

abbrev pub ◌<ℤ◌ : ℤ → ℤ → Type 0
a <ℤ b = pos_part a + neg_part b < pos_part b + neg_part a

abbrev pub ltb_ℤ : ℤ → ℤ → Bool
ltb_ℤ a b = ltb (pos_part a + neg_part b) (pos_part b + neg_part a)

abbrev pub leb_ℤ : ℤ → ℤ → Bool
leb_ℤ a b = leb (pos_part a + neg_part b) (pos_part b + neg_part a)

infix 50 ◌=ℤ=◌
abbrev pub ◌=ℤ=◌ : ℤ → ℤ → Bool
a =ℤ= b = pos_part a + neg_part b == pos_part b + neg_part a

unfoldable pub max_ℤ : ℤ → ℤ → ℤ
max_ℤ a b = if leb_ℤ a b then b else a

unfoldable pub min_ℤ : ℤ → ℤ → ℤ
min_ℤ a b = if leb_ℤ a b then a else b

-- With the operations shut, each is known by its parts.
pub +ℤ_parts :
    (a b : ℤ)
    → pos_part (a +ℤ b) + neg_part a + neg_part b ≡ neg_part (a +ℤ b) + pos_part a + pos_part b
unfolding ◌+ℤ◌
+ℤ_parts a b = ground arith

pub -ℤ_parts :
    (a b : ℤ)
    → pos_part (a -ℤ b) + neg_part a + pos_part b ≡ neg_part (a -ℤ b) + pos_part a + neg_part b
unfolding ◌-ℤ◌
-ℤ_parts a b = ground arith

pub eq_of_parts : (a b : ℤ) → pos_part a + neg_part b ≡ pos_part b + neg_part a → a ≡ b
eq_of_parts a b h = ground arith

pub =ℤ=_refl : (a : ℤ) → (a =ℤ= a) ≡ true
=ℤ=_refl a = ground arith

pub =ℤ=→eq : (a b : ℤ) → (a =ℤ= b) ≡ true → a ≡ b
=ℤ=→eq a b h = ground arith

pub ruleset int_laws = (arith, +ℤ_parts, -ℤ_parts, eq_of_parts)

pub +ℤ_zero : (a : ℤ) → a +ℤ pos 0 ≡ a
+ℤ_zero a = omega int_laws

-- A w-bit word is a number below 2 ^ w; a signed word is an integer in the matching range.
-- `m` is 2 ^ w in each of these, and `h` is half of it.
-- `x as u16` of a signed x: the two's complement pattern.
abbrev pub pattern_of : ℕ → ℤ → ℕ
pattern_of m (pos n) = n % m
pattern_of m (negsuc n) = m - 1 - n % m

-- `n as i16` of an unsigned n: what the pattern stands for.
abbrev pub value_of : ℕ → ℕ → ℕ → ℤ
value_of m h n = if ltb (n % m) h then pos (n % m) else negsuc (m - 1 - n % m)

abbrev pub IsByte : ℕ → Type 0
IsByte n = n < 256

abbrev pub IsU16 : ℕ → Type 0
IsU16 n = n < 65536

abbrev pub IsU32 : ℕ → Type 0
IsU32 n = n < 4294967296

abbrev pub IsU64 : ℕ → Type 0
IsU64 n = n < 18446744073709551616

abbrev pub IsI8 : ℤ → Type 0
IsI8 z = (pos_part z < 128) × (neg_part z ≤ 128)

abbrev pub IsI16 : ℤ → Type 0
IsI16 z = (pos_part z < 32768) × (neg_part z ≤ 32768)

abbrev pub IsI32 : ℤ → Type 0
IsI32 z = (pos_part z < 2147483648) × (neg_part z ≤ 2147483648)

unfoldable pub i8_as_u8 : ℤ → ℕ
i8_as_u8 z = pattern_of 256 z

unfoldable pub u8_as_i8 : ℕ → ℤ
u8_as_i8 n = value_of 256 128 n

unfoldable pub i16_as_u16 : ℤ → ℕ
i16_as_u16 z = pattern_of 65536 z

unfoldable pub u16_as_i16 : ℕ → ℤ
u16_as_i16 n = value_of 65536 32768 n

unfoldable pub i32_as_u32 : ℤ → ℕ
i32_as_u32 z = pattern_of 4294967296 z

unfoldable pub u32_as_i32 : ℕ → ℤ
u32_as_i32 n = value_of 4294967296 2147483648 n

-- `z as i16` of a wider signed z, and `z as i32`: the value is reduced modulo 2 ^ w.
unfoldable pub as_i16 : ℤ → ℤ
unfolding i16_as_u16 u16_as_i16
as_i16 z = u16_as_i16 (i16_as_u16 z)

-- i32 arithmetic of a release build wraps; this is applied to the exact result.
unfoldable pub as_i32 : ℤ → ℤ
unfolding i32_as_u32 u32_as_i32
as_i32 z = u32_as_i32 (i32_as_u32 z)

pub u8_as_i8-i8_as_u8 : (z : ℤ) → IsI8 z → u8_as_i8 (i8_as_u8 z) ≡ z
unfolding i8_as_u8 u8_as_i8
u8_as_i8-i8_as_u8 z h = ground arith

pub u16_as_i16-i16_as_u16 : (z : ℤ) → IsI16 z → u16_as_i16 (i16_as_u16 z) ≡ z
unfolding i16_as_u16 u16_as_i16
u16_as_i16-i16_as_u16 z h = ground arith

pub u32_as_i32-i32_as_u32 : (z : ℤ) → IsI32 z → u32_as_i32 (i32_as_u32 z) ≡ z
unfolding i32_as_u32 u32_as_i32
u32_as_i32-i32_as_u32 z h = ground arith

pub i8_as_u8-IsByte : (z : ℤ) → IsByte (i8_as_u8 z)
unfolding i8_as_u8
i8_as_u8-IsByte z = ground arith

pub i16_as_u16-IsU16 : (z : ℤ) → IsU16 (i16_as_u16 z)
unfolding i16_as_u16
i16_as_u16-IsU16 z = ground arith

pub i32_as_u32-IsU32 : (z : ℤ) → IsU32 (i32_as_u32 z)
unfolding i32_as_u32
i32_as_u32-IsU32 z = ground arith

-- A cast keeps what fits, and its result always fits.
pub as_i16-id : (z : ℤ) → IsI16 z → as_i16 z ≡ z
unfolding as_i16
as_i16-id z h = ground arith

pub as_i32-id : (z : ℤ) → IsI32 z → as_i32 z ≡ z
unfolding as_i32
as_i32-id z h = ground arith

pub as_i16-IsI16 : (z : ℤ) → IsI16 (as_i16 z)
unfolding as_i16
as_i16-IsI16 z = ground arith

pub as_i32-IsI32 : (z : ℤ) → IsI32 (as_i32 z)
unfolding as_i32
as_i32-IsI32 z = ground arith
