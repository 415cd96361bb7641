-- ===== src/Proto/Tests.antt =====
-- The codec of crates/kvm-proto on single messages.
use self_kvm.Common.{ℕ, List, [], ◌∷◌, ◌≡◌, refl, arith, inl, ok}
use self_kvm.Common.Int.{pos, negsuc, u16_as_i16}
use self_kvm.Proto.Bytes.{from_be}
use self_kvm.Proto.Message.{Message, Fits, hello_back, mouse_move}
use self_kvm.Proto.Utf8.{as_bytes}
use self_kvm.Proto.Encode.{encode}
use self_kvm.Proto.Decode.{decode}
use self_kvm.Proto.Sound.Messages.{decode-Fits}
use self_kvm.Proto.RoundTrip.{decode-encode}

-- The name `é`.
abbrev back : Message
back = hello_back (pos 1) (negsuc 1) (0xE9 ∷ [])

decode-encode_example : decode (encode back) ≡ ok back
decode-encode_example = decode-encode back (
  omega arith,
  omega arith,
  (((omega arith, inl (omega arith)), tt), unfold as_bytes in omega arith),
)

-- `DMMV`, 3 and -4, and a byte too many.
abbrev wire : List ℕ
wire = b'D' ∷ b'M' ∷ b'M' ∷ b'V' ∷ 0 ∷ 3 ∷ 255 ∷ 252 ∷ 9 ∷ []

decode-Fits_example :
    Fits (mouse_move (pos 3) (negsuc 3))
    × (decode (encode (mouse_move (pos 3) (negsuc 3))) ≡ ok (mouse_move (pos 3) (negsuc 3)))
unfolding decode u16_as_i16 from_be
decode-Fits_example =
    decode-Fits wire (mouse_move (pos 3) (negsuc 3))
      (
        omega arith,
        (
          omega arith,
          (
            omega arith,
            (
              omega arith,
              (omega arith, (omega arith, (omega arith, (omega arith, (omega arith, tt))))),
            ),
          ),
        ),
      )
      refl
