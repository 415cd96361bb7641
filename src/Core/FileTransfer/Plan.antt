-- ===== src/Core/FileTransfer/Plan.antt =====
-- The sender's plan of crates/kvm-core/src/file_transfer.rs: its blocks, and how many there are.
use self_kvm.Common.{
  ℕ, zero, suc, ◌+◌, ◌-◌, ◌/◌, ◌%◌, ◌^◌, ◌≤◌, ◌<◌, ◌≡◌, refl, ap, ◌∙◌, arith, List, [], ◌∷◌, ◌++◌,
  length, length-take, length-drop, drop, All, take-append-drop, if◌then◌else◌, ◌==◌,
}
use native.Mathlib.Decide.{dec_le}
use native.Mathlib.Nat.{mod-eq-sub-mod, div-eq-sub-div, mod-eq_of_lt, div-eq_of_lt}
use self_kvm.Core.FileTransfer.{chunks, chunk_count, at_least_one}

-- The blocks one after the other.
abbrev pub concat : List (List ℕ) → List ℕ
concat [] = []
concat (b ∷ bs) = b ++ concat bs

pub concat-chunks :
    (fuel cs : ℕ) (bytes : List ℕ)
    → 1 ≤ cs
    → length bytes ≤ fuel
    → concat (chunks fuel cs bytes) ≡ bytes
unfolding chunks
concat-chunks fuel cs [] h k = refl
concat-chunks zero cs (b ∷ bs) h k = absurd (omega arith)
concat-chunks (suc fuel) cs (b ∷ bs) h k =
    rw (concat-chunks fuel cs (drop cs (b ∷ bs)) h (omega (arith, length-drop {0} cs (b ∷ bs))))
      (take-append-drop cs (b ∷ bs))

-- A block holds at least one byte and at most `cs`.
abbrev pub IsBlock : ℕ → List ℕ → Type 0
IsBlock cs b = (1 ≤ length b) × (length b ≤ cs)

pub chunks-IsBlock :
    (fuel cs : ℕ) (bytes : List ℕ) → 1 ≤ cs → All (IsBlock cs) (chunks fuel cs bytes)
unfolding chunks
chunks-IsBlock fuel cs [] h = tt
chunks-IsBlock zero cs (b ∷ bs) h = tt
chunks-IsBlock (suc fuel) cs (b ∷ bs) h =
    (omega (arith, length-take {0} cs (b ∷ bs)), chunks-IsBlock fuel cs (drop cs (b ∷ bs)) h)

-- The number of blocks, by rounding up.
abbrev blocks_of : ℕ → ℕ → ℕ
blocks_of n cs = if n % cs == 0 then n / cs else n / cs + 1

blocks_zero : (cs : ℕ) → 1 ≤ cs → 0 ≡ blocks_of 0 cs
blocks_zero cs h = ground arith

-- One block takes `cs` bytes away, or what is left.
blocks_step : (n cs : ℕ) → 1 ≤ cs → 1 ≤ n → suc (blocks_of (n - cs) cs) ≡ blocks_of n cs
blocks_step n cs h k = elim (dec_le cs n) [
  | yes p ↦ rw (mod-eq-sub-mod p, div-eq-sub-div h p) (ground arith)
  | no p ↦
      let z : n - cs ≡ 0 = omega arith in
      rw (z, ← blocks_zero cs h, mod-eq_of_lt (lt_of p), div-eq_of_lt (lt_of p)) (ground arith)
]
  where
    lt_of : ¬ (cs ≤ n) → n < cs
    lt_of q = omega arith

pub length-chunks :
    (fuel cs : ℕ) (bytes : List ℕ)
    → 1 ≤ cs
    → length bytes ≤ fuel
    → length (chunks fuel cs bytes) ≡ blocks_of (length bytes) cs
unfolding chunks
length-chunks fuel cs [] h k = blocks_zero cs h
length-chunks zero cs (b ∷ bs) h k = absurd (omega arith)
length-chunks (suc fuel) cs (b ∷ bs) h k =
    ap suc (
      length-chunks fuel cs (drop cs (b ∷ bs)) h (omega (arith, length-drop {0} cs (b ∷ bs)))
      ∙ ap (λ (n : ℕ). blocks_of n cs) (length-drop cs (b ∷ bs)))
    ∙ blocks_step (length (b ∷ bs)) cs h (omega arith)

-- `chunk_count` counts the blocks of a file, as long as there are fewer than 2 ^ 32 of them: a
-- larger count wraps.
pub chunk_count-length :
    (bytes : List ℕ) (chunk_size : ℕ)
    → chunk_count (length bytes) chunk_size
      ≡ length (chunks (length bytes) (at_least_one chunk_size) bytes) % 2 ^ 32
unfolding chunk_count
chunk_count-length bytes chunk_size =
    rw (length-chunks (length bytes) (at_least_one chunk_size) bytes (ground arith) (omega arith))
