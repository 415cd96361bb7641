-- ===== src/Core/FileName/Safe.antt =====
-- What `sanitize_filename` of crates/kvm-core/src/file_transfer.rs lets through.
use self_kvm.Common.{
  ℕ, ◌≤◌, ◌<◌, [], ◌∷◌, ◌++◌, true, false, ◌≡◌, sym, ap, ◌∙◌, ◌≢◌, ◌⊎◌, arith, ◌=l=◌, All, ok,
  append_assoc, append-nil, Bool-cases, inl, inr, ==_refl,
}
use self_kvm.Proto.Utf8.{Text}
use self_kvm.Core.FileName.{
  is_separator, is_bad_char, any, base_loop, base_of, starts_with, ends_with, stem_of, uppercase,
  is_reserved, verdict, sanitize_filename,
}

-- A character that names no directory and controls nothing.
abbrev pub IsPlain : ℕ → Type 0
IsPlain c = (c ≢ b'/') × (c ≢ 92) × (c ≢ b':') × (0x20 ≤ c) × ((c < 0x7F) ⊎ (0x9F < c))

pub record IsSafe (b : Text) : Type 0 where
  pub plain : All IsPlain b
  pub nonempty : b ≢ []
  pub no_dot_first : (s : Text) → b ≢ b'.' ∷ s
  pub no_dot_last : (s : Text) → b ≢ s ++ (b'.' ∷ [])
  pub no_space_last : (s : Text) → b ≢ s ++ (b' ' ∷ [])
  pub no_device : is_reserved (uppercase (stem_of b)) ≡ false

-- The tests that a name has passed.
record Passed (name base b : Text) : Type 0 where
  same : b ≡ base
  not_empty : (base =l= []) ≡ false
  chars : any is_bad_char base ≡ false
  dot_first : starts_with b'.' base ≡ false
  dot_last : ends_with b'.' base ≡ false
  space_last : ends_with b' ' base ≡ false
  device : is_reserved (uppercase (stem_of base)) ≡ false

verdict-Passed : (name base b : Text) → verdict name base ≡ ok b → Passed name base b
unfolding verdict
verdict-Passed name base b h = ground arith

any-All : (s : Text) → any is_bad_char s ≡ false → All IsPlain s
any-All [] h = tt
any-All (c ∷ s) h = (ground arith, any-All s (ground arith))

ends_with-append : (k : ℕ) (s : Text) → ends_with k (s ++ (k ∷ [])) ≡ true
ends_with-append k [] = ==_refl k
ends_with-append k (c ∷ []) = ==_refl k
ends_with-append k (c ∷ d ∷ s) = ends_with-append k (d ∷ s)

base_loop-suffix : (cur s : Text) → (p : Text) × (cur ++ s ≡ p ++ base_loop cur s)
unfolding base_loop
base_loop-suffix cur [] = ([], append-nil cur)
base_loop-suffix cur (c ∷ s) = elim (Bool-cases (is_separator c)) [
  | inl e ↦
      let (p, q) = base_loop-suffix [] s in
      (
        cur ++ (c ∷ p),
        rw e (ap (λ (t : Text). cur ++ (c ∷ t)) q ∙ sym (append_assoc cur (c ∷ p) _)),
      )
  | inr e ↦
      let (p, q) = base_loop-suffix (cur ++ (c ∷ [])) s in
      (p, rw e (sym (append_assoc cur (c ∷ []) s) ∙ q))
]

base_loop-plain : (cur s : Text) → any is_bad_char s ≡ false → base_loop cur s ≡ cur ++ s
unfolding base_loop
base_loop-plain cur [] h = sym (append-nil cur)
base_loop-plain cur (c ∷ s) h =
    let e : is_separator c ≡ false = ground arith in
    rw e (base_loop-plain (cur ++ (c ∷ [])) s (ground arith) ∙ append_assoc cur (c ∷ []) s)

Passed-IsSafe : (name base b : Text) → Passed name base b → IsSafe base
Passed-IsSafe name base b t = record {
  plain = any-All base t.chars;
  nonempty = λ e. not_true (rw e at t.not_empty);
  no_dot_first = λ s e. not_true (rw e at t.dot_first);
  no_dot_last = λ s e. not_true (sym (ends_with-append b'.' s) ∙ rw e at t.dot_last);
  no_space_last = λ s e. not_true (sym (ends_with-append b' ' s) ∙ rw e at t.space_last);
  no_device = t.device;
}
  where
    not_true : true ≡ false → ⊥
    not_true e = cc

verdict-name :
    (name other base : Text) {b : Text} → verdict name base ≡ ok b → verdict other base ≡ ok b
unfolding verdict
verdict-name name other base h = ground arith

-- A name that is let through is the end of the one that was given. It is not empty, and has no
-- separator (`/`, `\`, `:`), no NUL and no control character in it; it does not begin with a dot, and
-- does not end in a dot or a space; and its stem is no device name.
pub sanitize_filename-IsSafe :
    (name b : Text) → sanitize_filename name ≡ ok b → IsSafe b × ((p : Text) × (name ≡ p ++ b))
unfolding sanitize_filename
sanitize_filename-IsSafe name b h =
    let t = verdict-Passed name (base_of name) b h in
    let (p, q) = base_loop-suffix [] name in
    (rw t.same (Passed-IsSafe name (base_of name) b t), (p, rw t.same q))

-- A name that has been let through is let through again, unchanged.
pub sanitize_filename_idem :
    (name b : Text) → sanitize_filename name ≡ ok b → sanitize_filename b ≡ ok b
unfolding sanitize_filename
sanitize_filename_idem name b h =
    let t = verdict-Passed name (base_of name) b h in
    let plain = base_loop-plain [] (base_of name) t.chars in
    rw (t.same, plain) (verdict-name name (base_of name) (base_of name) (rw t.same at h))
