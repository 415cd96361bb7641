-- ===== src/Net/Transport.antt =====
-- crates/kvm-net/src/transport.rs. The peer's stream is the bytes that it will still deliver and
-- how it ends; a sink is the bytes that have been written, and whether writing to it fails.
use self_kvm.Common.{
  ℕ, ◌*◌, ◌≤◌, ◌<◌, ◌%◌, ◌^◌, ◌≡◌, ◌∙◌, List, ◌++◌, arith, ltb, if◌then◌else◌, length, take, drop,
  Result, ok, err, and_then, Option, none, some, take-append, drop-append, length-append, le→ltb,
  lt→ltb,
}
use self_kvm.Proto.Error.{ProtoError}
use self_kvm.Proto.Bytes.{be_bytes, from_be, from_be-u32}
use self_kvm.Proto.Message.{Message, Fits}
use self_kvm.Proto.Encode.{encode}
use self_kvm.Proto.Decode.{decode}
use self_kvm.Proto.RoundTrip.{decode-encode}

abbrev pub max_frame_len : ℕ
max_frame_len = 4 * 1024 * 1024

-- An error of the operating system, by its number.
abbrev pub IoError : Type 0
IoError = ℕ

pub data NetError : Type 0 where
  closed : NetError
  frame_too_large : ℕ → NetError
  proto : ProtoError → NetError
  io : IoError → NetError

-- What a read meets behind the last byte.
pub data Ending : Type 0 where
  eof : Ending
  broken : IoError → Ending

pub record FramedReader : Type 0 where
  pub inner : List ℕ
  pub ending : Ending

-- The two `match`es on a failed `read_exact`.
abbrev pub ending_error : Ending → NetError
ending_error eof = closed
ending_error (broken e) = io e

-- `read_exact` of `n` bytes.
unfoldable pub read_exact : ℕ → FramedReader → Result NetError (List ℕ × FramedReader)
read_exact n r =
    if ltb (length r.inner) n
    then err (ending_error r.ending)
    else ok (take n r.inner, record r { inner = drop n r.inner })

abbrev pub decoded :
    Result ProtoError Message → FramedReader → Result NetError (Message × FramedReader)
decoded (ok m) r = ok (m, r)
decoded (err e) r = err (proto e)

abbrev pub frame_body : ℕ → FramedReader → Result NetError (Message × FramedReader)
frame_body len r =
    if ltb max_frame_len len
    then err (frame_too_large len)
    else and_then (read_exact len r) (λ p. decoded (decode p.0) p.1)

unfoldable pub recv : FramedReader → Result NetError (Message × FramedReader)
recv r = and_then (read_exact 4 r) (λ p. frame_body (from_be p.0) p.1)

pub record FramedWriter : Type 0 where
  pub written : List ℕ
  pub fault : Option IoError

-- One length, then the payload.
unfoldable pub frame : Message → List ℕ
frame msg = be_bytes 4 (length (encode msg) % 2 ^ 32) ++ encode msg

-- `write_all`, then `flush`.
unfoldable pub send : FramedWriter → Message → Result NetError FramedWriter
send w msg = elim w.fault [
  | none ↦ ok (record w { written = w.written ++ frame msg })
  | some e ↦ err (io e)
]

read_exact-append :
    (d rest : List ℕ) (e : Ending)
    → read_exact (length d) (record { inner = d ++ rest; ending = e })
      ≡ ok (d, record { inner = rest; ending = e })
unfolding read_exact
read_exact-append d rest e = rw (
  le→ltb (length (d ++ rest)) (length d) (omega (arith, length-append d rest)),
  take-append d rest,
  drop-append d rest,
)

length_prefix :
    (n : ℕ) (rest : List ℕ) (e : Ending)
    → n < 2 ^ 32
    → recv (record { inner = be_bytes 4 n ++ rest; ending = e })
      ≡ frame_body n (record { inner = rest; ending = e })
unfolding recv
length_prefix n rest e h = rw (read_exact-append (be_bytes 4 n) rest e, from_be-u32 n h)

-- A message that fits, framed and followed by any bytes, is received with exactly those bytes left,
-- if its encoding is at most MAX_FRAME_LEN long.
pub recv-frame :
    (m : Message) (rest : List ℕ) (e : Ending)
    → Fits m
    → length (encode m) ≤ max_frame_len
    → recv (record { inner = frame m ++ rest; ending = e })
      ≡ ok (m, record { inner = rest; ending = e })
unfolding frame
recv-frame m rest e h k =
    length_prefix (length (encode m) % 2 ^ 32) (encode m ++ rest) e (omega arith)
    ∙ rw (
      small (length (encode m)) k,
      le→ltb max_frame_len (length (encode m)) k,
      read_exact-append (encode m) rest e,
      decode-encode m h,
    )
  where
    small : (n : ℕ) → n ≤ max_frame_len → n % 2 ^ 32 ≡ n
    small n p = omega arith

-- A message whose encoding is longer than MAX_FRAME_LEN is written without complaint by a sink that
-- works, and the peer answers the frame with `FrameTooLarge`.
pub send-too-large :
    (w : FramedWriter) (m : Message) (rest : List ℕ) (e : Ending)
    → w.fault ≡ none
    → max_frame_len < length (encode m)
    → length (encode m) < 2 ^ 32
    → (send w m ≡ ok (record w { written = w.written ++ frame m }))
      × (recv (record { inner = frame m ++ rest; ending = e })
          ≡ err (frame_too_large (length (encode m))))
unfolding frame send
send-too-large w m rest e f lo hi = (
  rw f,
  length_prefix (length (encode m) % 2 ^ 32) (encode m ++ rest) e (omega arith)
      ∙ rw (small (length (encode m)) hi, lt→ltb max_frame_len (length (encode m)) lo),
)
  where
    small : (n : ℕ) → n < 2 ^ 32 → n % 2 ^ 32 ≡ n
    small n p = omega arith
