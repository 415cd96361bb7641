-- ===== src/Core/Layout/Scale.antt =====
-- `clamp` and `scale` of crates/kvm-core/src/layout.rs: bounds, and the proportional map itself.
use self_kvm.Common.{ℕ, ◌+◌, ◌*◌, ◌/◌, ◌≤◌, ◌<◌, ◌≡◌, refl, arith, false, leb}
use self_kvm.Common.Int.{
  ℤ, pos, pos_part, ◌≤ℤ◌, ◌<ℤ◌, ◌-ℤ◌, ◌*ℤ◌, ◌/ℤ◌, as_i32, as_i32-id, IsI32, int_laws,
}
use self_kvm.Core.Layout.{clamp, scale, sub_i32}

pub clamp_bounds : (v lo hi : ℤ) → lo ≤ℤ hi → (lo ≤ℤ clamp v lo hi) × (clamp v lo hi ≤ℤ hi)
unfolding clamp
clamp_bounds v lo hi h = ground arith

pub clamp-id : (v lo hi : ℤ) → lo ≤ℤ v → v ≤ℤ hi → clamp v lo hi ≡ v
unfolding clamp
clamp-id v lo hi h k = ground arith

-- An i32 subtraction that stays in range is exact.
pub sub_i32-pos : (a : ℤ) (m : ℕ) → IsI32 a → pos 0 ≤ℤ a → m ≤ 2 → sub_i32 a (pos m) ≡ a -ℤ pos m
unfolding ◌-ℤ◌
sub_i32-pos a m h k p = as_i32-id (a -ℤ pos m) (ground arith)

pub sub_one_bounds :
    (a : ℤ) → IsI32 a → pos 1 ≤ℤ a → (pos 0 ≤ℤ sub_i32 a (pos 1)) × (sub_i32 a (pos 1) <ℤ a)
sub_one_bounds a h k = rw (sub_i32-pos a 1 h (omega arith) (omega arith)) (omega int_laws)

pub scale_bounds :
    (v from to : ℤ) → IsI32 to → pos 1 ≤ℤ to → (pos 0 ≤ℤ scale v from to) × (scale v from to <ℤ to)
unfolding scale
scale_bounds v from to h k =
    let b = sub_one_bounds to h k in
    let c = clamp_bounds (as_i32 (v *ℤ to /ℤ from)) (pos 0) (sub_i32 to (pos 1)) b.0 in
    ground (arith, b, c)

-- Rounding down keeps the image of `0 .. n - 1` in `0 .. t - 1`.
div_lt : (v n t : ℕ) → v < n → 1 ≤ t → v * t / n < t
div_lt v n t h k = grind arith

-- From here on the numbers are not negative: the scale is the rounded-down proportion, so neither
-- the cast nor the final clamp changes it.
*ℤ_pos : (a b : ℕ) → pos a *ℤ pos b ≡ pos (a * b)
unfolding ◌*ℤ◌
*ℤ_pos a b = ground arith

/ℤ_pos : (a b : ℕ) → pos a /ℤ pos b ≡ pos (a / b)
unfolding ◌/ℤ◌
/ℤ_pos a b = refl

leb-false : (a b : ℕ) → b < a → leb a b ≡ false
leb-false a b h = ground arith

-- The pixel `v` of `n`, at least two, is mapped to the pixel `v * t / n` of `t`, rounded down:
-- neither the cast nor the clamp changes that value.
pub scale-eq_div :
    (v n t : ℕ)
    → v < n
    → 2 ≤ n
    → n < 2147483648
    → 1 ≤ t
    → t < 2147483648
    → scale (pos v) (pos n) (pos t) ≡ pos (v * t / n)
unfolding scale
scale-eq_div v n t hv hn kn ht kt =
    let b = div_lt v n t hv ht in
    rw
      (
        leb-false (n + 0) 1 (omega arith),
        leb-false (t + 0) 0 (omega arith),
        *ℤ_pos v t,
        /ℤ_pos (v * t) n,
        as_i32-id (pos (v * t / n)) (omega arith),
        sub_i32-pos (pos t) 1 (omega arith) (omega arith) (omega arith),
      )
      (clamp-id (pos (v * t / n)) (pos 0) (pos t -ℤ pos 1) (omega arith) (omega int_laws))

-- For pixels of a screen of `n`, at least two, the one further right is never mapped further left.
pub scale_mono :
    (u v n t : ℕ)
    → u ≤ v
    → v < n
    → 2 ≤ n
    → n < 2147483648
    → 1 ≤ t
    → t < 2147483648
    → scale (pos u) (pos n) (pos t) ≤ℤ scale (pos v) (pos n) (pos t)
scale_mono u v n t h hv hn kn ht kt =
    rw (scale-eq_div u n t (omega arith) hn kn ht kt, scale-eq_div v n t hv hn kn ht kt)
      (omega (arith, div_mono))
  where
    div_mono : u * t / n ≤ v * t / n
    div_mono = grind arith

cancel : (a b t : ℕ) → a * t < b * t → a < b
cancel a b t h = grind arith

-- A pixel that is carried to another screen and back is never right of where it was, and at most
-- `n / t + 1` pixels left of it, for widths `n` and `t` of at least two pixels.
pub scale_back :
    (v n t : ℕ)
    → v < n
    → 2 ≤ n
    → n < 2147483648
    → 2 ≤ t
    → t < 2147483648
    → (scale (scale (pos v) (pos n) (pos t)) (pos t) (pos n) ≤ℤ pos v)
      × (v ≤ pos_part (scale (scale (pos v) (pos n) (pos t)) (pos t) (pos n)) + n / t + 1)
scale_back v n t hv hn kn ht kt = rw (scale-eq_div v n t hv hn kn (omega arith) kt) (
    rw (scale-eq_div (v * t / n) t n (div_lt v n t hv (omega arith)) ht kt (omega arith) kn)
      (omega (arith, upper), lower))
  where
    upper : v * t / n * n / t ≤ v
    upper = grind arith

    lower : v ≤ v * t / n * n / t + n / t + 1
    lower = omega (arith, cancel v (v * t / n * n / t + n / t + 2) t (grind arith))
