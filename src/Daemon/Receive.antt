-- ===== src/Daemon/Receive.antt =====
-- crates/kvm-daemon/src/file_transfer.rs: the receiving half of a transfer, from the offer to the
-- last message, without the disk. The connection is the list of messages that it still delivers.
pub mod Delivery
pub mod Transfer
use self_kvm.Common.{
  ℕ, suc, ◌+◌, ◌%◌, ◌^◌, ◌≤◌, ◌<◌, ◌≡◌, refl, sym, ap, ◌∙◌, arith, List, [], ◌∷◌, ◌++◌, Bool, true,
  false, length, Result, ok, err, append_assoc, append-nil, length-append, All,
}
use self_kvm.Common.Int.{IsU32, IsU64}
use self_kvm.Proto.Utf8.{Text}
use self_kvm.Proto.Message.{Message, file_offer, file_chunk, file_end, file_accept}
use self_kvm.Core.FileName.{FileError, FileResult, sanitize_filename}
use self_kvm.Core.FileTransfer.{
  FileReassembler, begin, accept, complete, max_chunk_size, plan_messages, plan_loop, chunks,
  at_least_one,
}
use self_kvm.Core.FileTransfer.Accept.{
  IsAccounted, IsNext, after, begin-IsAccounted, accept-next, accept-IsNext, after-IsAccounted,
}
use self_kvm.Core.FileTransfer.Plan.{concat, concat-chunks, IsBlock, chunks-IsBlock, length-chunks}

-- Why a receive fails: a check, a message that does not belong here, or the end of the connection
-- (closed, broken or silent for too long).
pub data ReceiveError : Type 0 where
  rejected : FileError → ReceiveError
  unexpected : Message → ReceiveError
  lost : ReceiveError

-- The loop of `recv_body`: the receiver, what has been written, and the messages to come.
unfoldable pub recv_body : FileReassembler → List ℕ → List Message → Result ReceiveError (List ℕ)
recv_body r written [] = err lost
recv_body r written (file_chunk id seq bytes ∷ ms) =
    let taken = accept r id seq bytes in
    elim taken.1 [ ok out ↦ recv_body taken.0 (written ++ out) ms | err e ↦ err (rejected e) ]
recv_body r written (file_end id count ∷ ms) = elim (complete r id count) [
  | ok u ↦ ok written
  | err e ↦ err (rejected e)
]
recv_body r written (m ∷ ms) = err (unexpected m)

-- `recv_file_to_dir`: the replies sent, and the name and content to publish.
unfoldable pub recv_file : ℕ → List Message → List Message × Result ReceiveError (Text × List ℕ)
recv_file size_limit [] = ([], err lost)
recv_file size_limit (file_offer id name size ∷ ms) = elim (begin id name size size_limit) [
  | err e ↦ (file_accept id false ∷ [], err (rejected e))
  | ok r ↦ (
    file_accept id true ∷ [],
    elim (recv_body r [] ms) [ ok written ↦ ok (r.name, written) | err e ↦ err e ],
  )
]
recv_file size_limit (m ∷ ms) = ([], err (unexpected m))
