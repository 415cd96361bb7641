-- ===== src/Proto/Writer.antt =====
-- The writer of crates/kvm-proto/src/codec.rs: the bytes written so far.
use self_kvm.Common.{ℕ, ◌%◌, ◌^◌, List, [], ◌∷◌, ◌++◌, length}
use self_kvm.Common.Int.{ℤ, i8_as_u8, i16_as_u16, i32_as_u32}
use self_kvm.Proto.Utf8.{Text, as_bytes}
use self_kvm.Proto.Bytes.{be_bytes}

abbrev pub Writer : Type 0
Writer = List ℕ

unfoldable pub new : Writer
new = []

unfoldable pub raw : Writer → List ℕ → Writer
raw w bs = w ++ bs

unfoldable pub with_code : List ℕ → Writer
unfolding new raw
with_code code = raw new code

unfoldable pub u8 : Writer → ℕ → Writer
u8 w v = w ++ (v ∷ [])

unfoldable pub i8 : Writer → ℤ → Writer
i8 w v = w ++ (i8_as_u8 v ∷ [])

unfoldable pub u16 : Writer → ℕ → Writer
u16 w v = w ++ be_bytes 2 v

unfoldable pub i16 : Writer → ℤ → Writer
unfolding u16
i16 w v = u16 w (i16_as_u16 v)

unfoldable pub u32 : Writer → ℕ → Writer
u32 w v = w ++ be_bytes 4 v

unfoldable pub i32 : Writer → ℤ → Writer
unfolding u32
i32 w v = u32 w (i32_as_u32 v)

unfoldable pub u64 : Writer → ℕ → Writer
u64 w v = w ++ be_bytes 8 v

-- `b.len() as u32`
unfoldable pub bytes : Writer → List ℕ → Writer
unfolding u32
bytes w b = u32 w (length b % 2 ^ 32) ++ b

unfoldable pub string : Writer → Text → Writer
unfolding bytes
string w s = bytes w (as_bytes s)

-- The loop of `i32_vec`.
unfoldable pub i32_loop : Writer → List ℤ → Writer
unfolding i32
i32_loop w [] = w
i32_loop w (x ∷ xs) = i32_loop (i32 w x) xs

unfoldable pub i32_vec : Writer → List ℤ → Writer
unfolding u32 i32_loop
i32_vec w v = i32_loop (u32 w (length v % 2 ^ 32)) v
