-- ===== src/Net/Tests.antt =====
-- The framing of crates/kvm-net/src/transport.rs on single messages.
pub mod Pins
pub mod Sessions
use self_kvm.Common.{
  ℕ, zero, suc, ◌+◌, List, [], ◌∷◌, ◌++◌, ◌≡◌, refl, arith, ok, err, length, none,
}
use self_kvm.Common.Int.{pos, negsuc}
use self_kvm.Proto.Message.{Message, mouse_move, clipboard_data}
use self_kvm.Proto.Encode.{encode}
use self_kvm.Net.Transport.{
  recv, frame, send, eof, recv-frame, send-too-large, frame_too_large, FramedWriter,
}

unfoldable zeros : ℕ → List ℕ
zeros zero = []
zeros (suc n) = 0 ∷ zeros n

length-zeros : (n : ℕ) → length (zeros n) ≡ n
unfolding zeros
length-zeros zero = refl
length-zeros (suc n) = omega (arith, length-zeros n)

-- The clipboard with one byte more than a frame holds.
abbrev big : ℕ → Message
big n = clipboard_data (pos 0) 1 (pos 2) (zeros n)

length-big : (n : ℕ) → length (encode (big n)) ≡ n + 14
unfolding encode
length-big n = omega (arith, length-zeros n)

abbrev fresh : FramedWriter
fresh = record { written = []; fault = none }

send-too-large_example :
    (send fresh (big 4194305) ≡ ok (record { written = frame (big 4194305); fault = none }))
    × (recv (record { inner = frame (big 4194305) ++ []; ending = eof })
        ≡ err (frame_too_large (length (encode (big 4194305)))))
send-too-large_example =
    send-too-large fresh (big 4194305) [] eof refl (omega (arith, length-big 4194305))
      (omega (arith, length-big 4194305))
