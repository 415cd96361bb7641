-- ===== src/Desk/Files.antt =====
-- The command `send_file` of src-tauri/src/lib.rs: a file to a receiver, with two lines for the log of
-- the window.
use self_kvm.Common.{ℕ, List, [], ◌∷◌, Bool, Option, Result, ok, err}
use self_kvm.Common.Map.{Name}
use self_kvm.Proto.Utf8.{Text}
use self_kvm.Net.Transport.{IoError}
use self_kvm.Net.TrustFile.{Disk}
use self_kvm.Core.FileTransfer.{default_chunk_size}
use self_kvm.Daemon.SendFile.{SendOptions, Source, Receiver, SendFileError, Sent}
use self_kvm.Daemon.SendFile

pub record FileSendSetup : Type 0 where
  pub to : Name
  pub path : Text
  pub name : Option Text
  pub tls : Bool

-- `sending {path} → {to}` and `sent {path} → {to}`
pub data LogLine : Type 0 where
  sending_line sent_line : (path : Text) (to : Name) → LogLine

abbrev pub options_of : FileSendSetup → SendOptions
options_of setup = record { chunk_size = default_chunk_size; tls = setup.tls }

-- The lines, what is sent with the trust file, and the answer to the window.
abbrev pub logged : FileSendSetup → Result SendFileError (Unit {0}) → List LogLine
logged setup (ok u) = sending_line setup.path setup.to ∷ sent_line setup.path setup.to ∷ []
logged setup (err e) = sending_line setup.path setup.to ∷ []

module _ (write : Text → Disk → Disk) (sha256 : List ℕ → List ℕ) (file_at : Text → Source)
    (dial : Name → Result IoError Receiver) where
  unfoldable pub send_file : Bool → FileSendSetup → Disk → List LogLine × Sent
  unfolding SendFile.send_file
  send_file built setup trust =
      let s =
        SendFile.send_file write sha256 built setup.to (file_at setup.path) setup.name
          (options_of setup) (dial setup.to) trust in
      (logged setup s.result, s)
