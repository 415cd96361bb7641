-- ===== src/Core/FileName.antt =====
-- `sanitize_filename` of crates/kvm-core/src/file_transfer.rs, and the errors of that module. A name is
-- a list of characters; the tests of `char` are those of Rust's standard library.
pub mod Safe
use self_kvm.Common.{
  ℕ, ◌-◌, List, [], ◌∷◌, ◌++◌, Bool, true, false, not, ◌&&◌, ◌||◌, if◌then◌else◌, ltb, leb, ◌==◌,
  ◌=l=◌, Result, ok, err,
}
use self_kvm.Proto.Utf8.{Text}

pub data FileError : Type 0 where
  invalid_name : Text → FileError
  too_large : (size limit : ℕ) → FileError
  declined : FileError
  empty_chunk : (seq : ℕ) → FileError
  too_many_chunks : FileError
  id_mismatch : (expected got : ℕ) → FileError
  out_of_order : (expected got : ℕ) → FileError
  chunk_too_large : (size limit : ℕ) → FileError
  size_overflow : (got declared : ℕ) → FileError
  count_mismatch : (expected got : ℕ) → FileError
  size_mismatch : (declared received : ℕ) → FileError

abbrev pub FileResult {ℓ} : Type ℓ → Type ℓ
FileResult A = Result FileError A

-- `/`, `\` and `:`
abbrev pub is_separator : ℕ → Bool
is_separator c = c == b'/' || c == 92 || c == b':'

-- `char::is_control`
abbrev pub is_control : ℕ → Bool
is_control c = ltb c 0x20 || (leb 0x7F c && leb c 0x9F)

-- `char::is_whitespace`
abbrev pub is_whitespace : ℕ → Bool
is_whitespace c =
    (leb 0x09 c && leb c 0x0D)
    || c == 0x20
    || c == 0x85
    || c == 0xA0
    || c == 0x1680
    || (leb 0x2000 c && leb c 0x200A)
    || c == 0x2028
    || c == 0x2029
    || c == 0x202F
    || c == 0x205F
    || c == 0x3000

abbrev pub any : (ℕ → Bool) → Text → Bool
any p [] = false
any p (c ∷ s) = p c || any p s

-- `rsplit(separators).next()`: what follows the last separator.
unfoldable pub base_loop : Text → Text → Text
base_loop cur [] = cur
base_loop cur (c ∷ s) = base_loop (if is_separator c then [] else cur ++ (c ∷ [])) s

unfoldable pub base_of : Text → Text
unfolding base_loop
base_of name = base_loop [] name

abbrev pub starts_with : ℕ → Text → Bool
starts_with k [] = false
starts_with k (c ∷ s) = c == k

abbrev pub ends_with : ℕ → Text → Bool
ends_with k [] = false
ends_with k (c ∷ []) = c == k
ends_with k (c ∷ d ∷ s) = ends_with k (d ∷ s)

-- `split('.').next()`
abbrev pub stem_of : Text → Text
stem_of [] = []
stem_of (c ∷ s) = if c == b'.' then [] else c ∷ stem_of s

abbrev pub upper : ℕ → ℕ
upper c = if leb b'a' c && leb c b'z' then c - 32 else c

-- `to_ascii_uppercase`
abbrev pub uppercase : Text → Text
uppercase [] = []
uppercase (c ∷ s) = upper c ∷ uppercase s

-- COM1 .. COM9 and LPT1 .. LPT9: a three-letter device and a digit.
abbrev pub numbered : ℕ → ℕ → ℕ → Text → Bool
numbered a b c (x ∷ y ∷ z ∷ d ∷ []) = x == a && y == b && z == c && leb b'1' d && leb d b'9'
numbered a b c _ = false

abbrev pub is_reserved : Text → Bool
is_reserved s =
    s =l= b'C' ∷ b'O' ∷ b'N' ∷ []
    || s =l= b'P' ∷ b'R' ∷ b'N' ∷ []
    || s =l= b'A' ∷ b'U' ∷ b'X' ∷ []
    || s =l= b'N' ∷ b'U' ∷ b'L' ∷ []
    || numbered b'C' b'O' b'M' s
    || numbered b'L' b'P' b'T' s

abbrev pub is_bad_char : ℕ → Bool
is_bad_char c = is_separator c || c == 0 || is_control c

-- The tests on the final component `base`, in order.
unfoldable pub verdict : Text → Text → FileResult Text
verdict name base =
    if base =l= [] || base =l= b'.' ∷ [] || base =l= b'.' ∷ b'.' ∷ []
    then err (invalid_name name)
    else if any is_bad_char base
    then err (invalid_name name)
    else if not (any (λ c. not (is_whitespace c)) base)
        || starts_with b'.' base
        || ends_with b'.' base
        || ends_with b' ' base
    then err (invalid_name name)
    else if is_reserved (uppercase (stem_of base))
    then err (invalid_name name)
    else ok base

unfoldable pub sanitize_filename : Text → FileResult Text
unfolding base_of verdict
sanitize_filename name = verdict name (base_of name)
