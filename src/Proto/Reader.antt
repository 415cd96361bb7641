-- ===== src/Proto/Reader.antt =====
-- The reader of crates/kvm-proto/src/codec.rs. A `Reader` is the bytes of its buffer from `pos` on;
-- a method takes it and returns the value with the reader behind it, or the error.
use self_kvm.Common.{
  ℕ, zero, suc, ◌*◌, ◌/◌, List, [], ◌∷◌, ltb, ◌==◌, Bool, if◌then◌else◌, length, take, drop, ok,
  err, Option, none, some,
}
use self_kvm.Common.Int.{ℤ, u8_as_i8, u16_as_i16, u32_as_i32}
use self_kvm.Proto.Error.{ProtoError, ProtoResult, unexpected_eof, too_long, invalid_utf8}
use self_kvm.Proto.Utf8.{Text, from_utf8}
use self_kvm.Proto.Bytes.{from_be}

abbrev pub Reader : Type 0
Reader = List ℕ

-- What a method of the reader is: it may fail, and moves the position on.
abbrev pub Read : Type 0 → Type 0
Read A = Reader → ProtoResult (A × Reader)

-- Go on with what was read, or stop at the error.
abbrev pub feed :
    {A B : Type 0} → (A → Read B) → ProtoResult (A × Reader) → ProtoResult (B × Reader)
feed f (ok (a, r)) = f a r
feed f (err e) = err e

infixl 5 ◌>>=◌
abbrev pub ◌>>=◌ : {A B : Type 0} → Read A → (A → Read B) → Read B
◌>>=◌ m f r = feed f (m r)

abbrev pub return : {A : Type 0} → A → Read A
return a r = ok (a, r)

abbrev pub fail : {A : Type 0} → ProtoError → Read A
fail e r = err e

abbrev pub max_field_len : ℕ
max_field_len = 4 * 1024 * 1024

unfoldable pub new : List ℕ → Reader
new buf = buf

unfoldable pub remaining : Reader → ℕ
remaining r = length r

unfoldable pub is_empty : Reader → Bool
unfolding remaining
is_empty r = remaining r == 0

unfoldable pub take_bytes : ℕ → Read (List ℕ)
unfolding remaining
take_bytes n r =
    if ltb (remaining r) n then err (unexpected_eof n (remaining r)) else ok (take n r, drop n r)

-- `b[0]` of a slice that is not empty.
abbrev pub first : List ℕ → ℕ
first [] = 0
first (b ∷ bs) = b

unfoldable pub u8 : Read ℕ
unfolding take_bytes
u8 = do b ← take_bytes 1; return (first b)

unfoldable pub i8 : Read ℤ
unfolding u8
i8 = do v ← u8; return (u8_as_i8 v)

unfoldable pub u16 : Read ℕ
unfolding take_bytes
u16 = do b ← take_bytes 2; return (from_be b)

unfoldable pub i16 : Read ℤ
unfolding u16
i16 = do v ← u16; return (u16_as_i16 v)

unfoldable pub u32 : Read ℕ
unfolding take_bytes
u32 = do b ← take_bytes 4; return (from_be b)

unfoldable pub i32 : Read ℤ
unfolding u32
i32 = do v ← u32; return (u32_as_i32 v)

unfoldable pub u64 : Read ℕ
unfolding take_bytes
u64 = do b ← take_bytes 8; return (from_be b)

unfoldable pub fixed : ℕ → Read (List ℕ)
unfolding take_bytes
fixed n = take_bytes n

unfoldable pub bytes : Read (List ℕ)
bytes = do
  len ← u32
  if ltb max_field_len len then fail (too_long len max_field_len) else take_bytes len

abbrev pub checked_utf8 : Option Text → Read Text
checked_utf8 none = fail invalid_utf8
checked_utf8 (some s) = return s

unfoldable pub string : Read Text
string = do b ← bytes; checked_utf8 (from_utf8 b)

-- The loop of `i32_vec`, over the elements still to be read.
unfoldable pub i32_loop : ℕ → Read (List ℤ)
i32_loop zero = return []
i32_loop (suc n) = do x ← i32; xs ← i32_loop n; return (x ∷ xs)

unfoldable pub i32_vec : Read (List ℤ)
i32_vec = do
  count ← u32
  (if ltb (max_field_len / 4) count
      then fail (too_long count (max_field_len / 4))
      else i32_loop count)
