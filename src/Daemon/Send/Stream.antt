-- ===== src/Daemon/Send/Stream.antt =====
-- What crates/kvm-daemon/src/file_transfer.rs streams off the disk is the plan of
-- crates/kvm-core/src/file_transfer.rs.
use self_kvm.Common.{
  length-take, length-drop, ℕ, zero, suc, ◌+◌, ◌-◌, ◌%◌, ◌^◌, ◌≤◌, ◌<◌, ◌≡◌, refl, ap, ◌∙◌, arith,
  List, [], ◌∷◌, ◌++◌, true, false, ◌==◌, length, take, drop, ok,
}
use self_kvm.Common.Int.{IsU64}
use self_kvm.Proto.Utf8.{Text}
use self_kvm.Proto.Message.{Message, file_accept}
use self_kvm.Core.FileName.{sanitize_filename}
use self_kvm.Core.FileTransfer.{
  max_chunk_size, chunk_msg, end_msg, chunks, plan_loop, plan_messages, at_least_one,
}
use self_kvm.Daemon.Receive.{recv_file}
use self_kvm.Daemon.Receive.Transfer.{recv_file-plan_messages}
use self_kvm.Daemon.Send.{send_loop, send_framed, clamp_chunk}

-- The loop went to the end: `ms` and the end message are the plan of the blocks.
abbrev Streams : ℕ → ℕ → ℕ → ℕ → ℕ → List ℕ → Type 0
Streams fuel id cs seq sent bytes =
    (ms : List Message) × (n : ℕ) × (send_loop fuel id cs seq sent bytes
      ≡ (ms, ok (n, sent + length bytes)))
    × (ms ++ (end_msg id n ∷ []) ≡ plan_loop id seq (chunks fuel cs bytes))

not_last : (q : ℕ) → q + 1 < 2 ^ 32 → (q == 2 ^ 32 - 1) ≡ false
not_last q r = ground arith

next_seq : (q : ℕ) → q + 1 < 2 ^ 32 → (q + 1) % 2 ^ 32 ≡ q + 1
next_seq q r = omega arith

no_wrap : (q : ℕ) → q < 2 ^ 64 → q % 2 ^ 64 ≡ q
no_wrap q r = omega arith

-- One round, where neither counter overflows.
send_loop_step :
    (fuel id cs seq sent b : ℕ) (bs : List ℕ) (ms : List Message) (n t : ℕ)
    → seq + 1 < 2 ^ 32
    → sent + length (take cs (b ∷ bs)) < 2 ^ 64
    → send_loop fuel id cs (seq + 1) (sent + length (take cs (b ∷ bs))) (drop cs (b ∷ bs))
      ≡ (ms, ok (n, t))
    → send_loop (suc fuel) id cs seq sent (b ∷ bs)
      ≡ (chunk_msg id seq (take cs (b ∷ bs)) ∷ ms, ok (n, t))
unfolding send_loop
send_loop_step fuel id cs seq sent b bs ms n t h k e =
    rw (not_last seq h, no_wrap (sent + length (take cs (b ∷ bs))) k, e)

send_loop-Streams :
    (fuel id cs seq sent : ℕ) (bytes : List ℕ)
    → 1 ≤ cs
    → length bytes ≤ fuel
    → seq + length (chunks fuel cs bytes) < 2 ^ 32
    → sent + length bytes < 2 ^ 64
    → Streams fuel id cs seq sent bytes
unfolding send_loop chunks plan_loop
send_loop-Streams fuel id cs seq sent [] h k room small = ([], seq, ground arith, refl)
send_loop-Streams zero id cs seq sent (b ∷ bs) h k room small = absurd (omega arith)
send_loop-Streams (suc fuel) id cs seq sent (b ∷ bs) h k room small =
    let block = take cs (b ∷ bs) in
    let left = length-drop {0} cs (b ∷ bs) in
    let taken = length-take {0} cs (b ∷ bs) in
    let (ms, n, e, p) =
      send_loop-Streams fuel id cs (seq + 1) (sent + length block) (drop cs (b ∷ bs)) h
        (omega (arith, left)) (omega arith) (omega (arith, left, taken)) in
    let total : sent + length block + length (drop cs (b ∷ bs)) ≡ sent + length (b ∷ bs) =
      omega (arith, left, taken) in
    (
      chunk_msg id seq block ∷ ms,
      n,
      send_loop_step fuel id cs seq sent b bs ms n _ (omega arith) (omega (arith, taken)) e
          ∙ ap (λ (t : ℕ). (chunk_msg id seq block ∷ ms, ok (n, t))) total,
      rw (next_seq seq (omega arith)) (ap (λ (t : List Message). chunk_msg id seq block ∷ t) p),
    )

clamp_chunk-id : (n : ℕ) → n ≤ max_chunk_size → clamp_chunk n ≡ at_least_one n
clamp_chunk-id n h = ground arith

-- A file is streamed as it is planned: once the receiver has accepted, what goes over the connection is
-- exactly the planned messages, and the sender reports success, when the chunk size is within the
-- largest one, the size is a u64 and there are fewer than 2 ^ 32 chunks.
pub send_framed-plan_messages :
    (id i : ℕ) (name : Text) (bytes : List ℕ) (chunk_size : ℕ) (ms : List Message)
    → IsU64 (length bytes)
    → chunk_size ≤ max_chunk_size
    → length (chunks (length bytes) (at_least_one chunk_size) bytes) < 2 ^ 32
    → send_framed id name (length bytes) bytes chunk_size (file_accept i true ∷ ms)
      ≡ (plan_messages id name bytes chunk_size, ok tt)
unfolding send_framed plan_messages
send_framed-plan_messages id i name bytes chunk_size ms h k room =
    let cs = at_least_one chunk_size in
    let (sent, n, e, p) =
      send_loop-Streams (length bytes) id cs 0 0 bytes (ground arith) (omega arith)
        (omega (arith, room)) (omega arith) in
    rw (clamp_chunk-id chunk_size k, e, same_size (length bytes), p)
  where
    same_size : (q : ℕ) → (0 + q == q) ≡ true
    same_size q = ground arith

-- Sending and receiving: when the name has a sanitised form, the size is a u64 and within the limit, the
-- chunk size is within the largest one and there are fewer than 2 ^ 32 chunks, a receiver takes what the
-- sender sends once it has its answer, which is that the offer is accepted, and gets the bytes.
pub recv_file-send_framed :
    (limit id : ℕ) (name base : Text) (bytes : List ℕ) (chunk_size : ℕ)
    → sanitize_filename name ≡ ok base
    → IsU64 (length bytes)
    → length bytes ≤ limit
    → chunk_size ≤ max_chunk_size
    → length (chunks (length bytes) (at_least_one chunk_size) bytes) < 2 ^ 32
    → recv_file limit
        (send_framed id name (length bytes) bytes chunk_size (file_accept id true ∷ [])).0
      ≡ (file_accept id true ∷ [], ok (base, bytes))
recv_file-send_framed limit id name base bytes chunk_size s h l k room =
    rw (send_framed-plan_messages id id name bytes chunk_size [] h k room)
      (recv_file-plan_messages limit id name base bytes chunk_size s h l k room)
