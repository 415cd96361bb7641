-- ===== src/Daemon/Tests.antt =====
-- A transfer of crates/kvm-daemon/src/file_transfer.rs.
pub mod Runtime
pub mod Feeds
pub mod Files
use self_kvm.Common.{
  err, ◌⊎◌, inl, inr, ◌≢◌, Option, none, some, ℕ, List, [], ◌∷◌, true, ◌≡◌, refl, arith, ◌≤◌, ok,
  length,
}
use self_kvm.Proto.Utf8.{Text}
use self_kvm.Proto.Message.{Message, file_offer, file_chunk, file_end, file_accept}
use self_kvm.Core.FileName.{sanitize_filename}
use self_kvm.Core.FileTransfer.{plan_messages, chunks, begin, accept, complete}
use self_kvm.Daemon.Receive.{recv_file, recv_body}
use self_kvm.Daemon.Receive.Delivery.{Delivers}
use self_kvm.Daemon.Receive.Transfer.{recv_file-Delivers, recv_file-plan_messages}
use self_kvm.Common.Map.{Name, lookup}
use self_kvm.Daemon.Send.{send_framed}
use self_kvm.Daemon.Send.Stream.{send_framed-plan_messages, recv_file-send_framed}
use self_kvm.Daemon.Publish.{
  Directory, publish, reserve, rename, incoming, alternative, already_exists,
}
use self_kvm.Daemon.Download.Safe.{Delivered, recv_file_to_dir-Delivered}
use self_kvm.Daemon.Publish.Safe.{IsPublished, publish-IsPublished}

-- `a.txt`, of five bytes, in chunks of two.
abbrev pub file_name : Text
file_name = b'a' ∷ b'.' ∷ b't' ∷ b'x' ∷ b't' ∷ []

abbrev pub five : List ℕ
five = 1 ∷ 2 ∷ 3 ∷ 4 ∷ 5 ∷ []

abbrev rest : List Message
rest = file_chunk 7 0 (1 ∷ 2 ∷ []) ∷ file_chunk 7 1 (3 ∷ []) ∷ file_end 7 2 ∷ []

abbrev three : List ℕ
three = 1 ∷ 2 ∷ 3 ∷ []

recv_file-Delivers_example :
    Delivers 7 0 rest three
    × (length three ≡ 3)
    × (3 ≤ 100)
    × (sanitize_filename file_name ≡ ok file_name)
unfolding recv_file sanitize_filename begin recv_body accept complete
recv_file-Delivers_example =
    recv_file-Delivers 100 7 file_name file_name 3 rest three (omega arith) refl

-- There is an `a.txt` already.
abbrev downloads : Directory
downloads = (file_name, 9 ∷ []) ∷ (incoming 12, five) ∷ []

published_beside :
    (publish downloads (incoming 12) file_name 12).1 ≡ ok (b'1' ∷ b'2' ∷ b'-' ∷ file_name)
unfolding publish reserve rename
published_beside = refl

publish-IsPublished_example :
    ((p : Name) × ((publish downloads (incoming 12) file_name 12).1 ≡ ok p)
      × IsPublished downloads (publish downloads (incoming 12) file_name 12).0 (incoming 12) p five)
    ⊎ ((publish downloads (incoming 12) file_name 12 ≡ (downloads, err already_exists))
        × (lookup file_name downloads ≢ none)
        × (lookup (alternative 12 file_name) downloads ≢ none))
unfolding sanitize_filename
publish-IsPublished_example = publish-IsPublished downloads 12 file_name file_name five refl refl

abbrev folder : Directory
folder = (file_name, 9 ∷ []) ∷ []

recv_file_to_dir-Delivered_example : Delivered folder 12 100 (file_offer 7 file_name 3 ∷ rest)
recv_file_to_dir-Delivered_example =
    recv_file_to_dir-Delivered folder 12 100 (file_offer 7 file_name 3 ∷ rest) refl
