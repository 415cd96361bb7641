-- ===== src/Daemon/Tests/Files.antt =====
-- `send_file` of crates/kvm-daemon/src/file_transfer.rs with a small file.
use self_kvm.Common.{ℕ, List, [], ◌∷◌, some, none, true, ◌≡◌, refl, arith, ok}
use self_kvm.Proto.Message.{file_accept}
use self_kvm.Net.Tests.Pins.{save, digest, digest_bytes, studio}
use self_kvm.Net.Trust.{fingerprint}
use self_kvm.Net.Trust
use self_kvm.Net.TrustFile
use self_kvm.Net.TrustFile.{Disk, load, body, connect}
use self_kvm.Core.FileName.{sanitize_filename}
use self_kvm.Core.FileTransfer.{chunks}
use self_kvm.Daemon.Publish.{Directory}
use self_kvm.Daemon.SendFile.{Source, SendOptions, Receiver, send_file}
use self_kvm.Daemon.SendFile.Filed.{IsFiled, send_file-IsFiled}
use self_kvm.Daemon.SendFile.Withheld.{send_file-withholds}
use self_kvm.Daemon.Tests.{file_name, five}
use self_kvm.Daemon.Tests.Feeds.{pinned}

abbrev path : Source
path = record { size = ok 5; file_name = some file_name; content = ok five }

-- Two bytes to a chunk, and TLS.
abbrev opts : SendOptions
opts = record { chunk_size = 2; tls = true }

abbrev downloads : Directory
downloads = (studio, []) ∷ []

send_file-IsFiled_example :
    IsFiled
      (send_file save digest true studio path none opts
        (ok (record { cert = 7 ∷ []; replies = file_accept 1 true ∷ [] }))
        pinned)
      downloads
      3
      100
      (file_accept 1 true ∷ [])
      file_name
      five
unfolding sanitize_filename chunks connect TrustFile.file_check load fingerprint Trust.check
send_file-IsFiled_example =
    send_file-IsFiled save digest true studio path none opts (7 ∷ []) pinned file_name five
      downloads 3 100 refl refl refl refl (omega arith) (omega arith) (omega arith) (omega arith)
      refl refl

abbrev stranger : Receiver
stranger = record { cert = 7 ∷ 7 ∷ []; replies = file_accept 1 true ∷ [] }

send_file-withholds_example :
    (send_file save digest true studio path none opts (ok stranger) pinned).messages ≡ []
unfolding load body fingerprint
send_file-withholds_example =
    send_file-withholds save digest (λ t file. refl) digest_bytes true studio path none opts
      stranger pinned (7 ∷ []) refl refl (λ e. absurd (differ e))
  where
    differ : ◌≡◌ {A = List ℕ} (2 ∷ []) (1 ∷ []) → ⊥
    differ e = ground arith
