-- ===== src/Daemon/Download.antt =====
-- `recv_file_to_dir` of crates/kvm-daemon/src/file_transfer.rs: a receive into a download directory. The
-- file being written is in the directory under its token's name; the writes themselves succeed.
pub mod Safe
pub mod Named
use self_kvm.Common.{
  ℕ, List, [], ◌∷◌, ◌++◌, Bool, true, false, if◌then◌else◌, Result, ok, err, Option, none, some,
}
use self_kvm.Common.Map.{Name, Map, lookup, insert, remove, has}
use self_kvm.Proto.Message.{Message, file_offer, file_accept}
use self_kvm.Core.FileName.{FileError}
use self_kvm.Core.FileTransfer.{FileReassembler, begin}
use self_kvm.Daemon.Receive.{ReceiveError, rejected, unexpected, lost, recv_body}
use self_kvm.Daemon.Publish.{Directory, DiskError, already_exists, publish, incoming}

pub data DownloadError : Type 0 where
  refused : ReceiveError → DownloadError
  on_disk : DiskError → DownloadError

-- `if published.is_err() { remove_file(&tmp) }`
abbrev pub tidy : Name → Directory × Result DiskError Name → Directory × Result DownloadError Name
tidy tmp (d, ok p) = (d, ok p)
tidy tmp (d, err e) = (remove tmp d, err (on_disk e))

-- What has been received is published; what is left of a failed transfer is removed.
abbrev pub store :
    Directory → ℕ → Name → Result ReceiveError (List ℕ) → Directory × Result DownloadError Name
store d token name (ok bytes) =
    tidy (incoming token) (publish (insert (incoming token) bytes d) (incoming token) name token)
store d token name (err e) = (remove (incoming token) d, err (refused e))

-- The temporary file is created anew; if it is there already, nothing is received, and it is removed.
abbrev pub receive_into :
    Directory → ℕ → FileReassembler → List Message → Directory × Result DownloadError Name
receive_into d token r ms =
    if has (incoming token) d
    then (remove (incoming token) d, err (on_disk already_exists))
    else store d token r.name (recv_body r [] ms)

abbrev pub begun :
    Directory
    → ℕ
    → ℕ
    → List Message
    → Result FileError FileReassembler
    → Directory × List Message × Result DownloadError Name
begun d token id ms (err e) = (d, file_accept id false ∷ [], err (refused (rejected e)))
begun d token id ms (ok r) =
    let b = receive_into d token r ms in (b.0, file_accept id true ∷ [], b.1)

-- The directory afterwards, the replies, and the name of the file or the error.
unfoldable pub recv_file_to_dir :
    Directory → ℕ → ℕ → List Message → Directory × List Message × Result DownloadError Name
recv_file_to_dir d token size_limit [] = (d, [], err (refused lost))
recv_file_to_dir d token size_limit (file_offer id name size ∷ ms) =
    begun d token id ms (begin id name size size_limit)
recv_file_to_dir d token size_limit (m ∷ ms) = (d, [], err (refused (unexpected m)))
