-- ===== src/Proto/RoundTrip/Fields.antt =====
-- The composite fields: the reader takes back what the writer put, and leaves what follows.
use self_kvm.Common.{
  ℕ, ◌/◌, ◌%◌, ◌^◌, ◌≤◌, ◌≡◌, refl, ◌∙◌, sym, List, [], ◌∷◌, ◌++◌, arith, length, take-append,
  drop-append, length-append, append-nil, All, ok, le→ltb, append_assoc,
}
use self_kvm.Common.Int.{
  IsI8, IsI16, IsU64, i8_as_u8, u8_as_i8-i8_as_u8, i16_as_u16, i16_as_u16-IsU16,
  u16_as_i16-i16_as_u16, ℤ, IsI32, IsU32, i32_as_u32, u32_as_i32-i32_as_u32, i32_as_u32-IsU32,
}
use self_kvm.Proto.Utf8.{Text, as_bytes, from_utf8-as_bytes}
use self_kvm.Proto.Bytes.{be_bytes, from_be-u32, from_be-u16, from_be-u64}
use self_kvm.Proto.Message.{FitsText}
use self_kvm.Proto.Reader
use self_kvm.Proto.Reader.{max_field_len}
use self_kvm.Proto.Writer

take_bytes-append : (d rest : List ℕ) → Reader.take_bytes (length d) (d ++ rest) ≡ ok (d, rest)
unfolding Reader.take_bytes
take_bytes-append d rest = rw (
  le→ltb (length (d ++ rest)) (length d) (omega (arith, length-append d rest)),
  take-append d rest,
  drop-append d rest,
)

pub fixed-append : (d rest : List ℕ) → Reader.fixed (length d) (d ++ rest) ≡ ok (d, rest)
unfolding Reader.fixed
fixed-append d rest = take_bytes-append d rest

pub u32-be_bytes :
    (v : ℕ) (rest : List ℕ) → IsU32 v → Reader.u32 (be_bytes 4 v ++ rest) ≡ ok (v, rest)
unfolding Reader.u32
u32-be_bytes v rest h = rw (take_bytes-append (be_bytes 4 v) rest) (rw (from_be-u32 v h))

small : (n : ℕ) → n ≤ max_field_len → n % 2 ^ 32 ≡ n
small n h = omega arith

pub bytes-append :
    (d rest : List ℕ)
    → length d ≤ max_field_len
    → Reader.bytes (be_bytes 4 (length d % 2 ^ 32) ++ (d ++ rest)) ≡ ok (d, rest)
unfolding Reader.bytes
bytes-append d rest h =
    rw
      (
        u32-be_bytes (length d % 2 ^ 32) (d ++ rest) (omega arith),
        small (length d) h,
        le→ltb max_field_len (length d) h,
      )
      (take_bytes-append d rest)

pub bytes-all :
    (d : List ℕ)
    → length d ≤ max_field_len
    → Reader.bytes (be_bytes 4 (length d % 2 ^ 32) ++ d) ≡ ok (d, [])
bytes-all d h = rw append-nil at (bytes-append d [] h)

pub string-append :
    (s : Text) (rest : List ℕ)
    → FitsText s
    → Reader.string (be_bytes 4 (length (as_bytes s) % 2 ^ 32) ++ (as_bytes s ++ rest))
      ≡ ok (s, rest)
unfolding Reader.string
string-append s rest h = rw (bytes-append (as_bytes s) rest h.1, from_utf8-as_bytes s h.0)

pub string-all :
    (s : Text)
    → FitsText s
    → Reader.string (be_bytes 4 (length (as_bytes s) % 2 ^ 32) ++ as_bytes s) ≡ ok (s, [])
string-all s h = rw append-nil at (string-append s [] h)

-- The bytes of a vector's elements.
abbrev elements : List ℤ → List ℕ
elements [] = []
elements (x ∷ xs) = be_bytes 4 (i32_as_u32 x) ++ elements xs

pub i32_loop-elements : (xs : List ℤ) (w : List ℕ) → Writer.i32_loop w xs ≡ w ++ elements xs
unfolding Writer.i32_loop
i32_loop-elements [] w = sym (append-nil w)
i32_loop-elements (x ∷ xs) w =
    i32_loop-elements xs (w ++ be_bytes 4 (i32_as_u32 x))
    ∙ append_assoc w (be_bytes 4 (i32_as_u32 x)) (elements xs)

pub i8-cons : (x : ℤ) (rest : List ℕ) → IsI8 x → Reader.i8 (i8_as_u8 x ∷ rest) ≡ ok (x, rest)
unfolding Reader.i8
i8-cons x rest h = rw (take_bytes-append (i8_as_u8 x ∷ []) rest, u8_as_i8-i8_as_u8 x h)

pub i16-be_bytes :
    (x : ℤ) (rest : List ℕ)
    → IsI16 x
    → Reader.i16 (be_bytes 2 (i16_as_u16 x) ++ rest) ≡ ok (x, rest)
unfolding Reader.i16
i16-be_bytes x rest h = rw (
  take_bytes-append (be_bytes 2 (i16_as_u16 x)) rest,
  from_be-u16 (i16_as_u16 x) (i16_as_u16-IsU16 x),
  u16_as_i16-i16_as_u16 x h,
)

pub u64-be_bytes :
    (v : ℕ) (rest : List ℕ) → IsU64 v → Reader.u64 (be_bytes 8 v ++ rest) ≡ ok (v, rest)
unfolding Reader.u64
u64-be_bytes v rest h = rw (take_bytes-append (be_bytes 8 v) rest) (rw (from_be-u64 v h))

i32-be_bytes :
    (x : ℤ) (rest : List ℕ)
    → IsI32 x
    → Reader.i32 (be_bytes 4 (i32_as_u32 x) ++ rest) ≡ ok (x, rest)
unfolding Reader.i32
i32-be_bytes x rest h =
    rw (u32-be_bytes (i32_as_u32 x) rest (i32_as_u32-IsU32 x), u32_as_i32-i32_as_u32 x h)

i32_loop-read :
    (xs : List ℤ) → All IsI32 xs → Reader.i32_loop (length xs) (elements xs) ≡ ok (xs, [])
unfolding Reader.i32_loop
i32_loop-read [] h = refl
i32_loop-read (x ∷ xs) h = rw (i32-be_bytes x (elements xs) h.0, i32_loop-read xs h.1)

pub i32_vec-elements :
    (xs : List ℤ)
    → All IsI32 xs
    → length xs ≤ max_field_len / 4
    → Reader.i32_vec (be_bytes 4 (length xs % 2 ^ 32) ++ elements xs) ≡ ok (xs, [])
unfolding Reader.i32_vec
i32_vec-elements xs h k =
    rw
      (
        u32-be_bytes (length xs % 2 ^ 32) (elements xs) (omega arith),
        small (length xs) (omega arith),
        le→ltb (max_field_len / 4) (length xs) k,
      )
      (i32_loop-read xs h)
