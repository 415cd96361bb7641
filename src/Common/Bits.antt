-- ===== src/Common/Bits.antt =====
-- Bounds on `|` and `&`, from the digits that the native operations stand for.
use Prim.Native.Nat.{
  ℕ, zero, suc, ◌/◌, ◌^◌, ◌≤◌, ◌<◌, min, max, bit_and, bit_or, digits, bit_and-bitwise,
  bit_or-bitwise,
}
use native.Mathlib.Omega.{arith}

or_digits_bound : (k n a b : ℕ) → a < 2 ^ k → b < 2 ^ k → digits (λ b. b) max n a b < 2 ^ k
or_digits_bound k zero a b p q = q
or_digits_bound k (suc n) zero b p q = q
or_digits_bound zero (suc n) (suc a) b p q = absurd (omega arith)
or_digits_bound (suc k) (suc n) (suc a) b p q =
    let r = or_digits_bound k n (suc a / 2) (b / 2) (omega arith) (omega arith) in omega (arith, r)

and_digits_bound : (n a b : ℕ) → digits (λ b. zero) min n a b ≤ a
and_digits_bound zero a b = omega arith
and_digits_bound (suc n) zero b = omega arith
and_digits_bound (suc n) (suc a) b =
    let r = and_digits_bound n (suc a / 2) (b / 2) in omega (arith, r)

pub bit_or_bound : (k a b : ℕ) → a < 2 ^ k → b < 2 ^ k → bit_or a b < 2 ^ k
bit_or_bound k a b p q = omega (arith, bit_or-bitwise a b, or_digits_bound k a a b p q)

pub bit_and_bound : (a b : ℕ) → bit_and a b ≤ a
bit_and_bound a b = omega (arith, bit_and-bitwise a b, and_digits_bound a a b)
