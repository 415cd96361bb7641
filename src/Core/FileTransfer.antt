-- ===== src/Core/FileTransfer.antt =====
-- The transfer of crates/kvm-core/src/file_transfer.rs: the sender's plan and the receiver's checks.
pub mod Accept
pub mod Plan
use self_kvm.Common.{
  ℕ, zero, suc, ◌+◌, ◌-◌, ◌*◌, ◌/◌, ◌%◌, ◌^◌, List, [], ◌∷◌, ◌++◌, Bool, true, false, not,
  if◌then◌else◌, ltb, leb, ◌==◌, length, take, drop, Result, ok, err, and_then,
}
use self_kvm.Proto.Utf8.{Text}
use self_kvm.Proto.Message.{Message, file_offer, file_chunk, file_end}
use self_kvm.Core.FileName.{
  FileError, FileResult, too_large, empty_chunk, too_many_chunks, id_mismatch, out_of_order,
  chunk_too_large, size_overflow, count_mismatch, size_mismatch, sanitize_filename,
}

abbrev pub default_chunk_size : ℕ
default_chunk_size = 256 * 1024

abbrev pub max_chunk_size : ℕ
max_chunk_size = 4 * 1024 * 1024 - 1024

abbrev pub default_max_file_size : ℕ
default_max_file_size = 10 * 1024 * 1024 * 1024

-- `chunk_size.max(1)`
abbrev pub at_least_one : ℕ → ℕ
at_least_one n = if ltb n 1 then 1 else n

-- `size.div_ceil(cs) as u32`
unfoldable pub chunk_count : ℕ → ℕ → ℕ
chunk_count size chunk_size =
    let cs = at_least_one chunk_size in
    (if size % cs == 0 then size / cs else size / cs + 1) % 2 ^ 32

abbrev pub offer_msg : ℕ → Text → ℕ → Message
offer_msg id name size = file_offer id name size

abbrev pub chunk_msg : ℕ → ℕ → List ℕ → Message
chunk_msg id seq bytes = file_chunk id seq bytes

abbrev pub end_msg : ℕ → ℕ → Message
end_msg id count = file_end id count

-- `data.chunks(cs)` for a `cs` that is not 0. Each block takes a byte at least, so as many rounds as
-- there are bytes are enough.
unfoldable pub chunks : ℕ → ℕ → List ℕ → List (List ℕ)
chunks fuel cs [] = []
chunks zero cs (b ∷ bs) = []
chunks (suc fuel) cs (b ∷ bs) = take cs (b ∷ bs) ∷ chunks fuel cs (drop cs (b ∷ bs))

-- The loop of `plan_messages` from `seq` on, and the terminating message.
unfoldable pub plan_loop : ℕ → ℕ → List (List ℕ) → List Message
plan_loop id seq [] = end_msg id seq ∷ []
plan_loop id seq (block ∷ rest) = chunk_msg id seq block ∷ plan_loop id ((seq + 1) % 2 ^ 32) rest

unfoldable pub plan_messages : ℕ → Text → List ℕ → ℕ → List Message
unfolding plan_loop chunks
plan_messages id name bytes chunk_size =
    offer_msg id name (length bytes)
    ∷ plan_loop id 0 (chunks (length bytes) (at_least_one chunk_size) bytes)

pub record FileReassembler : Type 0 where
  pub id : ℕ
  pub name : Text
  pub declared_size : ℕ  -- u64
  pub next_seq : ℕ  -- u32
  pub received : ℕ  -- u64

unfoldable pub begin : ℕ → Text → ℕ → ℕ → FileResult FileReassembler
begin id name size size_limit = and_then (sanitize_filename name) λ base.
    if ltb size_limit size
    then err (too_large size size_limit)
    else ok (record { id = id; name = base; declared_size = size; next_seq = 0; received = 0 })

-- The state afterwards, and the bytes to write or the error. `received` is a u64, so the sum wraps.
unfoldable pub accept : FileReassembler → ℕ → ℕ → List ℕ → FileReassembler × FileResult (List ℕ)
accept r id seq bytes =
    let new_total = (r.received + length bytes) % 2 ^ 64 in
    if not (id == r.id)
    then (r, err (id_mismatch r.id id))
    else if not (seq == r.next_seq)
    then (r, err (out_of_order r.next_seq seq))
    else if length bytes == 0
    then (r, err (empty_chunk seq))
    else if ltb max_chunk_size (length bytes)
    then (r, err (chunk_too_large (length bytes) max_chunk_size))
    else if ltb r.declared_size new_total
    then (r, err (size_overflow new_total r.declared_size))
    else if r.next_seq == 2 ^ 32 - 1
    then (r, err too_many_chunks)
    else (record r { next_seq = r.next_seq + 1; received = new_total }, ok bytes)

unfoldable pub complete : FileReassembler → ℕ → ℕ → FileResult (Unit {0})
complete r id count =
    if not (id == r.id)
    then err (id_mismatch r.id id)
    else if not (count == r.next_seq)
    then err (count_mismatch r.next_seq count)
    else if not (r.received == r.declared_size)
    then err (size_mismatch r.declared_size r.received)
    else ok tt
