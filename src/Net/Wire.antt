-- ===== src/Net/Wire.antt =====
-- A whole conversation over crates/kvm-net/src/transport.rs: one message sent after the other, and a
-- loop that receives until there is an error, as the loops of crates/kvm-daemon do.
pub mod Session
use self_kvm.Common.{
  ℕ, zero, suc, ◌≤◌, ◌<◌, ◌+◌, ◌≡◌, refl, sym, ap, ◌∙◌, arith, List, [], ◌∷◌, ◌++◌, All, length,
  length-append, Option, none, some, Result, ok, err, and_then, append_assoc, append-nil,
}
use self_kvm.Proto.Message.{Message, Fits}
use self_kvm.Proto.Encode.{encode}
use self_kvm.Net.Transport.{
  NetError, FramedReader, FramedWriter, Ending, ending_error, read_exact, max_frame_len, recv, send,
  frame, recv-frame,
}

unfoldable pub sends : FramedWriter → List Message → Result NetError FramedWriter
sends w [] = ok w
sends w (m ∷ ms) = and_then (send w m) (λ w'. sends w' ms)

-- What has come, and the error at the end; a frame has four bytes at least.
unfoldable pub recv_all : ℕ → FramedReader → List Message × Option NetError
recv_all zero r = ([], none)
recv_all (suc fuel) r = elim (recv r) [
  | err e ↦ ([], some e)
  | ok p ↦ let rest = recv_all fuel p.1 in (p.0 ∷ rest.0, rest.1)
]

abbrev pub frames : List Message → List ℕ
frames [] = []
frames (m ∷ ms) = frame m ++ frames ms

-- A message that a peer takes.
abbrev pub IsTaken : Message → Type 0
IsTaken m = Fits m × (length (encode m) ≤ max_frame_len)

abbrev pub working : List ℕ → FramedWriter
working b = record { written = b; fault = none }

pub sends-frames :
    (b : List ℕ) (ms : List Message) → sends (working b) ms ≡ ok (working (b ++ frames ms))
unfolding sends send
sends-frames b [] = ap (λ (x : List ℕ). ok (working x)) (sym (append-nil b))
sends-frames b (m ∷ ms) =
    sends-frames (b ++ frame m) ms
    ∙ ap (λ (x : List ℕ). ok (working x)) (append_assoc b (frame m) (frames ms))

recv-end : (e : Ending) → recv (record { inner = []; ending = e }) ≡ err (ending_error e)
unfolding recv read_exact
recv-end e = refl

pub recv_all-frames :
    (fuel : ℕ) (ms : List Message) (e : Ending)
    → All IsTaken ms
    → length ms < fuel
    → recv_all fuel (record { inner = frames ms; ending = e }) ≡ (ms, some (ending_error e))
unfolding recv_all
recv_all-frames zero ms e h k = absurd (omega arith)
recv_all-frames (suc fuel) [] e h k = rw (recv_all, recv-end e) refl
recv_all-frames (suc fuel) (m ∷ ms) e h k =
    rw
      (
        recv_all,
        recv-frame m (frames ms) e h.0.0 h.0.1,
        recv_all-frames fuel ms e h.1 (omega arith),
      )
      refl

nonempty : (m : Message) → 1 ≤ length (frame m)
unfolding frame
nonempty m = omega arith

length-frames : (ms : List Message) → length ms ≤ length (frames ms)
length-frames [] = omega arith
length-frames (m ∷ ms) =
    omega (arith, length-append (frame m) (frames ms), length-frames ms, nonempty m)

-- Messages that a peer takes, sent one after the other on a connection that works, are what the peer
-- receives, in order, and then it meets the end of the connection; as many rounds as there are bytes,
-- and one more, are enough.
pub recv_all-sends :
    (ms : List Message) (e : Ending)
    → All IsTaken ms
    → (w : FramedWriter) × (sends (working []) ms ≡ ok w)
      × (recv_all (suc (length w.written)) (record { inner = w.written; ending = e })
          ≡ (ms, some (ending_error e)))
recv_all-sends ms e h = (
  working (frames ms),
  sends-frames [] ms,
  recv_all-frames (suc (length (frames ms))) ms e h (omega (arith, length-frames ms)),
)
