-- ===== src/Core/FileTransfer/Accept.antt =====
-- The receiver of crates/kvm-core/src/file_transfer.rs: its invariant, and what it accepts.
use self_kvm.Common.{ℕ, ◌+◌, ◌*◌, ◌%◌, ◌^◌, ◌≤◌, ◌<◌, ◌≡◌, arith, List, length, ok, err}
use self_kvm.Common.Int.{IsU32, IsU64}
use self_kvm.Proto.Utf8.{Text}
use self_kvm.Core.FileName.{FileError, sanitize_filename}
use self_kvm.Core.FileTransfer.{FileReassembler, begin, accept, max_chunk_size}

-- The counters are in step with the declared size and with one another.
pub record IsAccounted (r : FileReassembler) : Type 0 where
  pub size_u64 : IsU64 r.declared_size
  pub seq_u32 : IsU32 r.next_seq
  pub within : r.received ≤ r.declared_size
  pub paid : r.next_seq ≤ r.received
  pub bounded : r.received ≤ r.next_seq * max_chunk_size

-- Beginning with a size that is a u64 gives counters in step, a sanitised name and a size within
-- the limit.
pub begin-IsAccounted :
    (id : ℕ) (name : Text) (size limit : ℕ) (r : FileReassembler)
    → IsU64 size
    → begin id name size limit ≡ ok r
    → IsAccounted r × (r.declared_size ≤ limit) × (sanitize_filename name ≡ ok r.name)
unfolding begin
begin-IsAccounted id name size limit r h e = ground arith

-- A chunk that the receiver takes: the right transfer, the next in order, with at least one byte, at most
-- a chunk's bytes and no more than is still missing.
pub record IsNext (r : FileReassembler) (id seq : ℕ) (bytes : List ℕ) : Type 0 where
  pub same_id : id ≡ r.id
  pub in_order : seq ≡ r.next_seq
  pub some_bytes : 1 ≤ length bytes
  pub one_chunk : length bytes ≤ max_chunk_size
  pub fits : r.received + length bytes ≤ r.declared_size
  pub countable : r.next_seq + 1 < 2 ^ 32

-- With the counters in step the sum of the bytes never wraps.
total_exact :
    (r : FileReassembler) (n : ℕ)
    → IsAccounted r
    → n ≤ max_chunk_size
    → (r.received + n) % 2 ^ 64 ≡ r.received + n
total_exact r n h k = omega (arith, h.bounded, h.seq_u32)

abbrev pub after : FileReassembler → List ℕ → FileReassembler
after r bytes = record r { next_seq = r.next_seq + 1; received = r.received + length bytes }

-- With the counters in step a chunk that `IsNext` describes is accepted, with its own bytes to write, and counted exactly.
pub accept-next :
    (r : FileReassembler) (id seq : ℕ) (bytes : List ℕ)
    → IsAccounted r
    → IsNext r id seq bytes
    → accept r id seq bytes ≡ (after r bytes, ok bytes)
unfolding accept
accept-next r id seq bytes h n = ground (arith, total_exact r (length bytes))

-- With the counters in step a chunk that is accepted is one that `IsNext` describes.
pub accept-IsNext :
    (r : FileReassembler) (id seq : ℕ) (bytes out : List ℕ)
    → IsAccounted r
    → (accept r id seq bytes).1 ≡ ok out
    → IsNext r id seq bytes
unfolding accept
accept-IsNext r id seq bytes out h e = ground (arith, total_exact r (length bytes), h.seq_u32)

-- A chunk that is refused leaves the receiver as it was.
pub accept_refused :
    (r : FileReassembler) (id seq : ℕ) (bytes : List ℕ) (e : FileError)
    → (accept r id seq bytes).1 ≡ err e
    → (accept r id seq bytes).0 ≡ r
unfolding accept
accept_refused r id seq bytes e h = ground arith

pub after-IsAccounted :
    (r : FileReassembler) (id seq : ℕ) (bytes : List ℕ)
    → IsAccounted r
    → IsNext r id seq bytes
    → IsAccounted (after r bytes)
after-IsAccounted r id seq bytes h n = record {
  size_u64 = h.size_u64;
  seq_u32 = n.countable;
  within = n.fits;
  paid = omega (arith, h.paid, n.some_bytes);
  bounded = omega (arith, h.bounded, n.one_chunk);
}
