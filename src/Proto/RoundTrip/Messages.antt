-- ===== src/Proto/RoundTrip/Messages.antt =====
-- `decode` takes back every message that fits, read field by field.
use self_kvm.Common.{
  ◌==◌, ◌%◌, ◌^◌, ◌≤◌, suc, ℕ, ◌≡◌, refl, ◌∙◌, ap, List, [], ◌∷◌, ◌++◌, true, false, ok, arith,
  &&_false, length, leb, le→ltb,
}
use self_kvm.Common.Int.{
  ℤ, IsI8, IsI16, i8_as_u8, i16_as_u16, u16_as_i16, u8_as_i8, u8_as_i8-i8_as_u8,
  u16_as_i16-i16_as_u16, i16_as_u16-IsU16,
}
use self_kvm.Proto.Bytes.{be_bytes, from_be, from_be-u16, from_be-u32}
use self_kvm.Proto.Message.{
  Message, Fits, hello, hello_back, query_info, device_info, info_ack, reset_options, set_options,
  keep_alive, no_op, close, screen_saver, enter, leave, key_down, key_up, key_repeat, mouse_down,
  mouse_up, mouse_move, mouse_rel_move, mouse_wheel, clipboard_grab, clipboard_data, file_offer,
  file_chunk, file_end, file_accept, err_incompatible, err_busy, err_unknown, err_bad,
}
use self_kvm.Proto.Encode.{encode}
use self_kvm.Proto.Decode.{decode, fields, greeting, message_of}
use self_kvm.Proto.Code
use self_kvm.Proto.Utf8.{Text}
use self_kvm.Proto.Reader
use self_kvm.Proto.RoundTrip.Fields.{
  fixed-append, u32-be_bytes, u64-be_bytes, i8-cons, i16-be_bytes, bytes-all, string-append,
  string-all, i32_vec-elements, i32_loop-elements,
}

i16-back : (x : ℤ) → IsI16 x → u16_as_i16 (from_be (be_bytes 2 (i16_as_u16 x))) ≡ x
i16-back x h =
    ap u16_as_i16 (from_be-u16 (i16_as_u16 x) (i16_as_u16-IsU16 x)) ∙ u16_as_i16-i16_as_u16 x h

i8-back : (x : ℤ) → IsI8 x → u8_as_i8 (i8_as_u8 x) ≡ x
i8-back x h = u8_as_i8-i8_as_u8 x h

-- Behind an opcode, which does not begin as the magic does, stand the fields.
decode-code :
    (a b c d : ℕ) (rest : List ℕ)
    → (a == b'S') ≡ false
    → decode (a ∷ b ∷ c ∷ d ∷ rest) ≡ message_of (fields (a ∷ b ∷ c ∷ d ∷ []) rest)
unfolding decode
decode-code a b c d rest h = rw (
  h,
  &&_false (leb 7 (length (a ∷ b ∷ c ∷ d ∷ rest))),
  le→ltb (length (a ∷ b ∷ c ∷ d ∷ rest)) 4 (omega arith),
)

decode-magic :
    (rest : List ℕ)
    → decode (Code.hello_magic ++ rest) ≡ message_of (greeting (Code.hello_magic ++ rest))
unfolding decode
decode-magic rest = rw (leb-true (length (Code.hello_magic ++ rest)) (omega arith))
  where
    leb-true : (n : ℕ) → 7 ≤ n → leb 7 n ≡ true
    leb-true n k = ground arith

-- A greeting that goes on behind the version is a reply.
greeting-name :
    (major minor : ℤ) (name : Text) (b : ℕ) (bs : List ℕ)
    → IsI16 major
    → IsI16 minor
    → Reader.string (b ∷ bs) ≡ ok (name, [])
    → greeting (
        Code.hello_magic
        ++ be_bytes 2 (i16_as_u16 major)
        ++ be_bytes 2 (i16_as_u16 minor)
        ++ (b ∷ bs))
      ≡ ok (hello_back major minor name, [])
unfolding Reader.is_empty
greeting-name major minor name b bs hj hn e = rw (
  fixed-append Code.hello_magic _,
  i16-be_bytes major _ hj,
  i16-be_bytes minor _ hn,
  nonzero (length bs),
  e,
)
  where
    nonzero : (n : ℕ) → (suc n == 0) ≡ false
    nonzero n = ground arith

hello_back-read :
    (major minor : ℤ) (name : Text)
    → Fits (hello_back major minor name)
    → decode (encode (hello_back major minor name)) ≡ ok (hello_back major minor name)
unfolding encode
hello_back-read major minor name h =
    decode-magic _
    ∙ ap message_of (greeting-name major minor name _ _ h.0 h.1 (string-all name h.2))

set_options-read :
    (opts : List ℤ)
    → Fits (set_options opts)
    → decode (encode (set_options opts)) ≡ ok (set_options opts)
unfolding encode
set_options-read opts h =
    ap decode (i32_loop-elements opts (Code.set_options ++ be_bytes 4 (length opts % 2 ^ 32)))
    ∙ decode-code _ _ _ _ _ refl
    ∙ rw (i32_vec-elements opts h.0 h.1)

clipboard_data-read :
    (id : ℤ) (seq : ℕ) (mark : ℤ) (b : List ℕ)
    → Fits (clipboard_data id seq mark b)
    → decode (encode (clipboard_data id seq mark b)) ≡ ok (clipboard_data id seq mark b)
unfolding encode
clipboard_data-read id seq mark b h =
    decode-code _ _ _ _ _ refl
    ∙ rw (i8-cons id _ h.0, u32-be_bytes seq _ h.1, i8-cons mark _ h.2, bytes-all b h.3.1)

file_offer-read :
    (id : ℕ) (name : Text) (size : ℕ)
    → Fits (file_offer id name size)
    → decode (encode (file_offer id name size)) ≡ ok (file_offer id name size)
unfolding encode
file_offer-read id name size h =
    decode-code _ _ _ _ _ refl
    ∙ rw (u32-be_bytes id _ h.0, string-append name (be_bytes 8 size) h.1, u64-be_bytes size [] h.2)

file_chunk-read :
    (id seq : ℕ) (b : List ℕ)
    → Fits (file_chunk id seq b)
    → decode (encode (file_chunk id seq b)) ≡ ok (file_chunk id seq b)
unfolding encode
file_chunk-read id seq b h =
    decode-code _ _ _ _ _ refl
    ∙ rw (u32-be_bytes id _ h.0, u32-be_bytes seq _ h.1, bytes-all b h.2.1)

-- Decoding what `encode` wrote gives the message back, for each message whose fields are in the
-- range of their types and whose length-prefixed fields are at most MAX_FIELD_LEN long.
-- On the messages of a fixed length the reader runs to the end by itself.
pub decode-encode : (m : Message) → Fits m → decode (encode m) ≡ ok m
unfolding decode encode
decode-encode (hello major minor) h = rw (i16-back major h.0, i16-back minor h.1)
decode-encode (device_info x y w k warp mx my) h = rw (
  i16-back x h.0,
  i16-back y h.1,
  i16-back w h.2,
  i16-back k h.3,
  i16-back warp h.4,
  i16-back mx h.5,
  i16-back my h.6,
)
decode-encode (screen_saver true) h = refl
decode-encode (screen_saver false) h = refl
decode-encode (enter x y seq modifiers) h =
    rw (i16-back x h.0, i16-back y h.1, from_be-u32 seq h.2, from_be-u16 modifiers h.3)
decode-encode (key_down id mask button) h =
    rw (from_be-u16 id h.0, from_be-u16 mask h.1, from_be-u16 button h.2)
decode-encode (key_up id mask button) h =
    rw (from_be-u16 id h.0, from_be-u16 mask h.1, from_be-u16 button h.2)
decode-encode (key_repeat id mask count button) h =
    rw (from_be-u16 id h.0, from_be-u16 mask h.1, from_be-u16 count h.2, from_be-u16 button h.3)
decode-encode (mouse_down button) h = rw (i8-back button h)
decode-encode (mouse_up button) h = rw (i8-back button h)
decode-encode (mouse_move x y) h = rw (i16-back x h.0, i16-back y h.1)
decode-encode (mouse_rel_move dx dy) h = rw (i16-back dx h.0, i16-back dy h.1)
decode-encode (mouse_wheel x y) h = rw (i16-back x h.0, i16-back y h.1)
decode-encode (clipboard_grab id seq) h = rw (i8-back id h.0, from_be-u32 seq h.1)
decode-encode (file_end id count) h = rw (from_be-u32 id h.0, from_be-u32 count h.1)
decode-encode (file_accept id true) h = rw (from_be-u32 id h)
decode-encode (file_accept id false) h = rw (from_be-u32 id h)
decode-encode (err_incompatible major minor) h = rw (i16-back major h.0, i16-back minor h.1)
decode-encode query_info h = refl
decode-encode info_ack h = refl
decode-encode reset_options h = refl
decode-encode keep_alive h = refl
decode-encode no_op h = refl
decode-encode close h = refl
decode-encode leave h = refl
decode-encode err_busy h = refl
decode-encode err_unknown h = refl
decode-encode err_bad h = refl
decode-encode (hello_back major minor name) h = hello_back-read major minor name h
decode-encode (set_options opts) h = set_options-read opts h
decode-encode (clipboard_data id seq mark b) h = clipboard_data-read id seq mark b h
decode-encode (file_offer id name size) h = file_offer-read id name size h
decode-encode (file_chunk id seq b) h = file_chunk-read id seq b h
