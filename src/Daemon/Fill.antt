-- ===== src/Daemon/Fill.antt =====
-- `fill` of crates/kvm-daemon/src/file_transfer.rs, and the sending loop over a source that may give
-- fewer bytes than there is room for. The source is a parameter: a read gives bytes or an error.
pub mod Reads
use self_kvm.Common.{
  ℕ, zero, suc, ◌+◌, ◌-◌, ◌%◌, ◌^◌, List, [], ◌∷◌, ◌++◌, if◌then◌else◌, ◌==◌, length, Result, ok,
  err,
}
use self_kvm.Proto.Message.{Message}
use self_kvm.Net.Transport.{IoError}
use self_kvm.Core.FileTransfer.{chunk_msg}
use self_kvm.Daemon.Send.{SendError, too_many_chunks}

-- What `fill` comes back with; `stuck` is a loop that has run out of fuel.
pub data Filled : Type 0 where
  stuck : Filled
  failed : IoError → Filled
  filled : List ℕ → Filled

-- How the loop of `send_framed` can end early: the source, or the counting.
pub data LoopError : Type 0 where
  endless : LoopError
  unreadable : IoError → LoopError
  sending : SendError → LoopError

module _ {R : Type 0} (read : R → ℕ → Result IoError (List ℕ) × R) where
  abbrev pub prepend : List ℕ → Filled × R → Filled × R
  prepend bs (filled cs, r) = (filled (bs ++ cs), r)
  prepend bs (f, r) = (f, r)

  -- The body of the `while`, behind a read for `n` bytes.
  abbrev pub filled_by : (R → ℕ → Filled × R) → ℕ → Result IoError (List ℕ) × R → Filled × R
  filled_by again n (err e, r) = (failed e, r)
  filled_by again n (ok [], r) = (filled [], r)
  filled_by again n (ok (b ∷ bs), r) = prepend (b ∷ bs) (again r (n - length (b ∷ bs)))

  -- `n` is the room that is left in the buffer.
  unfoldable pub fill_loop : ℕ → R → ℕ → Filled × R
  fill_loop fuel r zero = (filled [], r)
  fill_loop zero r (suc n) = (stuck, r)
  fill_loop (suc fuel) r (suc n) = filled_by (fill_loop fuel) (suc n) (read r (suc n))

  -- Each round takes a byte at least.
  unfoldable pub fill : R → ℕ → Filled × R
  unfolding fill_loop
  fill r n = fill_loop n r n

  abbrev pub LoopResult : Type 0
  LoopResult = List Message × Result LoopError (ℕ × ℕ)

  -- The body of the loop of `send_framed`, behind a `fill`.
  abbrev pub sent_by : (ℕ → ℕ → R → LoopResult) → ℕ → ℕ → ℕ → Filled × R → LoopResult
  sent_by again id seq sent (stuck, r) = ([], err endless)
  sent_by again id seq sent (failed e, r) = ([], err (unreadable e))
  sent_by again id seq sent (filled [], r) = ([], ok (seq, sent))
  sent_by again id seq sent (filled (b ∷ bs), r) =
      let rest = again (seq + 1) ((sent + length (b ∷ bs)) % 2 ^ 64) r in
      if seq == 2 ^ 32 - 1
      then (chunk_msg id seq (b ∷ bs) ∷ [], err (sending too_many_chunks))
      else (chunk_msg id seq (b ∷ bs) ∷ rest.0, rest.1)

  unfoldable pub stream_loop : ℕ → ℕ → ℕ → ℕ → ℕ → R → LoopResult
  unfolding fill
  stream_loop zero id cs seq sent r = sent_by (λ q t s. ([], err endless)) id seq sent (fill r cs)
  stream_loop (suc fuel) id cs seq sent r =
      sent_by (λ q t s. stream_loop fuel id cs q t s) id seq sent (fill r cs)
