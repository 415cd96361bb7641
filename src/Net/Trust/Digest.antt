-- ===== src/Net/Trust/Digest.antt =====
-- `fingerprint` of crates/kvm-net/src/tls.rs: what it keeps of a digest.
use self_kvm.Common.{
  ℕ, ◌/◌, ◌%◌, ◌<◌, List, [], ◌∷◌, false, ◌≡◌, refl, ap, arith, All, drop, All-append,
}
use self_kvm.Common.Int.{IsByte}
use self_kvm.Proto.Utf8.{Text}
use self_kvm.Core.FileName.{is_whitespace}
use self_kvm.Net.Trust.{hex_digit, join_hex, fingerprint, prefix}

hex_digit_inj : (a b : ℕ) → a < 16 → b < 16 → hex_digit a ≡ hex_digit b → a ≡ b
hex_digit_inj a b ha hb h = ground arith

byte_eq : (a b : ℕ) → a / 16 ≡ b / 16 → a % 16 ≡ b % 16 → a ≡ b
byte_eq a b p q = omega arith

hex_inj :
    (a b : ℕ)
    → IsByte a
    → IsByte b
    → hex_digit (a / 16) ≡ hex_digit (b / 16)
    → hex_digit (a % 16) ≡ hex_digit (b % 16)
    → a ≡ b
hex_inj a b ha hb p q =
    byte_eq a b (hex_digit_inj (a / 16) (b / 16) (omega arith) (omega arith) p)
      (hex_digit_inj (a % 16) (b % 16) (omega arith) (omega arith) q)

head_eq {ℓ} : {A : Type ℓ} {a b : A} {s t : List A} → a ∷ s ≡ b ∷ t → a ≡ b
head_eq h = cc

tail_eq {ℓ} : {A : Type ℓ} {a b : A} {s t : List A} → a ∷ s ≡ b ∷ t → s ≡ t
tail_eq h = cc

pub join_hex_inj :
    (as' bs : List ℕ) → All IsByte as' → All IsByte bs → join_hex as' ≡ join_hex bs → as' ≡ bs
unfolding join_hex
join_hex_inj [] [] ha hb e = refl
join_hex_inj [] (b ∷ []) ha hb e = absurd (cc)
join_hex_inj [] (b ∷ c ∷ bs) ha hb e = absurd (cc)
join_hex_inj (a ∷ []) [] ha hb e = absurd (cc)
join_hex_inj (a ∷ d ∷ as') [] ha hb e = absurd (cc)
join_hex_inj (a ∷ []) (b ∷ []) ha hb e =
    rw (hex_inj a b ha.0 hb.0 (head_eq e) (head_eq (tail_eq e))) refl
join_hex_inj (a ∷ []) (b ∷ c ∷ bs) ha hb e = absurd (cc (tail_eq (tail_eq e)))
join_hex_inj (a ∷ d ∷ as') (b ∷ []) ha hb e = absurd (cc (tail_eq (tail_eq e)))
join_hex_inj (a ∷ d ∷ as') (b ∷ c ∷ bs) ha hb e = cc (
  hex_inj a b ha.0 hb.0 (head_eq e) (head_eq (tail_eq e)),
  join_hex_inj (d ∷ as') (c ∷ bs) ha.1 hb.1 (tail_eq (tail_eq (tail_eq e))),
)

-- Different digests have different fingerprints.
pub fingerprint_inj :
    (sha256 : List ℕ → List ℕ) (c d : List ℕ)
    → All IsByte (sha256 c)
    → All IsByte (sha256 d)
    → fingerprint sha256 c ≡ fingerprint sha256 d
    → sha256 c ≡ sha256 d
unfolding fingerprint
fingerprint_inj sha256 c d hc hd e = join_hex_inj (sha256 c) (sha256 d) hc hd (ap (drop 7) e)

-- A text without white space.
abbrev pub IsWord : Text → Type 0
IsWord = All (λ c. is_whitespace c ≡ false)

digit_word : (d : ℕ) → d < 16 → is_whitespace (hex_digit d) ≡ false
digit_word d h = ground arith

join_hex-IsWord : (bs : List ℕ) → All IsByte bs → IsWord (join_hex bs)
unfolding join_hex
join_hex-IsWord [] h = tt
join_hex-IsWord (b ∷ []) h =
    (digit_word (b / 16) (omega arith), (digit_word (b % 16) (omega arith), tt))
join_hex-IsWord (b ∷ c ∷ bs) h = (
  digit_word (b / 16) (omega arith),
  (digit_word (b % 16) (omega arith), (refl, join_hex-IsWord (c ∷ bs) h.1)),
)

pub fingerprint-IsWord :
    (sha256 : List ℕ → List ℕ) (c : List ℕ) → All IsByte (sha256 c) → IsWord (fingerprint sha256 c)
unfolding fingerprint
fingerprint-IsWord sha256 c h =
    All-append _ prefix (join_hex (sha256 c))
      (refl, (refl, (refl, (refl, (refl, (refl, (refl, tt))))))) (join_hex-IsWord (sha256 c) h)
