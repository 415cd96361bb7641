-- ===== src/Daemon/Send.antt =====
-- The sending half of crates/kvm-daemon/src/file_transfer.rs, on the content of a file and the messages
-- that the peer sends back; the connection takes everything that is sent.
pub mod Stream
use self_kvm.Common.{
  ℕ, zero, suc, ◌+◌, ◌-◌, ◌%◌, ◌^◌, List, [], ◌∷◌, ◌++◌, Bool, true, false, if◌then◌else◌, ltb,
  ◌==◌, length, take, drop, Result, ok, err,
}
use self_kvm.Proto.Utf8.{Text}
use self_kvm.Proto.Message.{Message, file_accept}
use self_kvm.Core.FileTransfer.{max_chunk_size, offer_msg, chunk_msg, end_msg}

pub data SendError : Type 0 where
  declined : SendError
  unexpected : Message → SendError
  lost : SendError
  too_many_chunks : SendError
  file_changed : (declared sent : ℕ) → SendError

-- `chunk_size.clamp(1, MAX_CHUNK_SIZE)`
abbrev pub clamp_chunk : ℕ → ℕ
clamp_chunk n = if ltb n 1 then 1 else if ltb max_chunk_size n then max_chunk_size else n

-- The loop: what is sent, and the number of chunks and bytes. `fill` takes as much of the file as there
-- is room in the buffer, so it comes back empty at the end of the file only. Each chunk takes a byte at
-- least, so as many rounds as there are bytes are enough.
unfoldable pub send_loop : ℕ → ℕ → ℕ → ℕ → ℕ → List ℕ → List Message × Result SendError (ℕ × ℕ)
send_loop fuel id cs seq sent [] = ([], ok (seq, sent))
send_loop zero id cs seq sent (b ∷ bs) = ([], err lost)
send_loop (suc fuel) id cs seq sent (b ∷ bs) =
    let block = take cs (b ∷ bs) in
    let rest = send_loop fuel id cs (seq + 1) ((sent + length block) % 2 ^ 64) (drop cs (b ∷ bs)) in
    if seq == 2 ^ 32 - 1
    then (chunk_msg id seq block ∷ [], err too_many_chunks)
    else (chunk_msg id seq block ∷ rest.0, rest.1)

-- The check behind the loop, and the end message.
abbrev pub finish :
    ℕ → ℕ → List Message × Result SendError (ℕ × ℕ) → List Message × Result SendError (Unit {0})
finish id size (ms, ok (seq, sent)) =
    if sent == size
    then (ms ++ (end_msg id seq ∷ []), ok tt)
    else (ms, err (file_changed size sent))
finish id size (ms, err e) = (ms, err e)

-- What follows the offer.
abbrev pub send_accepted :
    ℕ → ℕ → List ℕ → ℕ → List Message → List Message × Result SendError (Unit {0})
send_accepted id size bytes cs [] = ([], err lost)
send_accepted id size bytes cs (file_accept _ true ∷ ms) =
    finish id size (send_loop (length bytes) id cs 0 0 bytes)
send_accepted id size bytes cs (file_accept _ false ∷ ms) = ([], err declined)
send_accepted id size bytes cs (m ∷ ms) = ([], err (unexpected m))

unfoldable pub send_framed :
    ℕ → Text → ℕ → List ℕ → ℕ → List Message → List Message × Result SendError (Unit {0})
unfolding send_loop
send_framed id name size bytes chunk_size ms =
    let r = send_accepted id size bytes (clamp_chunk chunk_size) ms in
    (offer_msg id name size ∷ r.0, r.1)
