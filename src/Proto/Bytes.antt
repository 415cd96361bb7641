-- ===== src/Proto/Bytes.antt =====
-- Big-endian words: the standard library's `to_be_bytes` and `from_be_bytes`.
use self_kvm.Common.{
  All, ◌<◌, length, ℕ, zero, suc, ◌+◌, ◌*◌, ◌/◌, ◌%◌, ◌^◌, ◌≡◌, List, [], ◌∷◌, arith,
}
use mathlib.Core.Path.{subst}
use native.Mathlib.Nat.{pow-succ', mul_assoc}
use self_kvm.Common.Int.{IsByte, IsU16, IsU32, IsU64}

-- The low `k` bytes of `v`, highest first.
abbrev pub be_bytes : ℕ → ℕ → List ℕ
be_bytes zero v = []
be_bytes (suc k) v = v / 256 ^ k % 256 ∷ be_bytes k v

from_be_acc : ℕ → List ℕ → ℕ
from_be_acc acc [] = acc
from_be_acc acc (b ∷ bs) = from_be_acc (acc * 256 + b) bs

unfoldable pub from_be : List ℕ → ℕ
unfolding from_be_acc
from_be bs = from_be_acc 0 bs

pub from_be-u16 : (v : ℕ) → IsU16 v → from_be (be_bytes 2 v) ≡ v
unfolding from_be
from_be-u16 v h = omega arith

pub from_be-u32 : (v : ℕ) → IsU32 v → from_be (be_bytes 4 v) ≡ v
unfolding from_be
from_be-u32 v h = omega arith

pub from_be-u64 : (v : ℕ) → IsU64 v → from_be (be_bytes 8 v) ≡ v
unfolding from_be
from_be-u64 v h = omega arith

shifted : (top n : ℕ) → top * 256 * 256 ^ n ≡ top * 256 ^ suc n
shifted top n = rw (pow-succ' 256 n) (mul_assoc top 256 (256 ^ n))

from_be_acc-bound :
    (top acc : ℕ) (bs : List ℕ)
    → All IsByte bs
    → acc < top
    → from_be_acc acc bs < top * 256 ^ length bs
unfolding from_be_acc
from_be_acc-bound top acc [] h k = grind arith
from_be_acc-bound top acc (b ∷ bs) h k =
    let i = from_be_acc-bound (top * 256) (acc * 256 + b) bs h.1 (omega (arith, h.0)) in
    subst (λ (n : ℕ). from_be_acc (acc * 256 + b) bs < n) (shifted top (length bs)) i

-- A big-endian word of bytes is less than the power of its length.
pub from_be-bound : (bs : List ℕ) → All IsByte bs → from_be bs < 256 ^ length bs
unfolding from_be
from_be-bound bs h = let i = from_be_acc-bound 1 0 bs h (omega arith) in omega (arith, i)
