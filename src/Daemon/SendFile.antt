-- ===== src/Daemon/SendFile.antt =====
-- `send_file` of crates/kvm-daemon/src/file_transfer.rs: a file of the disk to a receiver, with TLS or
-- without. What the system says of the path is a parameter, and so is the receiver, which is its
-- certificate and what it sends.
pub mod Filed
pub mod Withheld
use self_kvm.Common.{ℕ, List, [], ◌∷◌, Bool, true, false, Option, none, some, Result, ok, err}
use self_kvm.Common.Map.{Name}
use self_kvm.Proto.Utf8.{Text}
use self_kvm.Proto.Message.{Message}
use self_kvm.Net.Transport.{IoError}
use self_kvm.Net.Trust.{Reason, Verdict}
use self_kvm.Net.TrustFile.{Disk, connect}
use self_kvm.Core.FileTransfer.{default_chunk_size}
use self_kvm.Daemon.Send.{SendError, send_framed}

pub record SendOptions : Type 0 where
  pub chunk_size : ℕ
  pub tls : Bool

abbrev pub default_options : SendOptions
default_options = record { chunk_size = default_chunk_size; tls = false }

-- The length that `metadata` gives, the last component of the path as text, and what is read.
pub record Source : Type 0 where
  pub size : Result IoError ℕ
  pub file_name : Option Text
  pub content : Result IoError (List ℕ)

pub record Receiver : Type 0 where
  pub cert : List ℕ
  pub replies : List Message

pub data SendFileError : Type 0 where
  no_stat : IoError → SendFileError
  no_open : IoError → SendFileError
  no_connection : IoError → SendFileError
  untrusted : Reason → SendFileError
  unsupported : SendFileError
  sending : SendError → SendFileError

-- What is sent, the trust file afterwards, and the result.
pub record Sent : Type 0 where
  pub messages : List Message
  pub trust : Disk
  pub result : Result SendFileError (Unit {0})

abbrev pub failed : Disk → SendFileError → Sent
failed trust e = record { messages = []; trust = trust; result = err e }

-- The name that the offer has.
abbrev pub offered_name : Option Text → Option Text → Text
offered_name (some n) file_name = n
offered_name none (some n) = n
offered_name none none = b'f' ∷ b'i' ∷ b'l' ∷ b'e' ∷ b'.' ∷ b'b' ∷ b'i' ∷ b'n' ∷ []

abbrev pub told : Result SendError (Unit {0}) → Result SendFileError (Unit {0})
told (ok u) = ok u
told (err e) = err (sending e)

abbrev pub trusted : Disk × Verdict → Disk × Result SendFileError (Unit {0})
trusted (trust, ok u) = (trust, ok u)
trusted (trust, err e) = (trust, err (untrusted e))

-- `send_framed` on the connection that is there, with transfer id 1.
abbrev pub send_over :
    SendOptions → Text → ℕ → List ℕ → List Message → Disk × Result SendFileError (Unit {0}) → Sent
send_over opts name size bytes replies (trust, err e) = failed trust e
send_over opts name size bytes replies (trust, ok u) =
    let r = send_framed 1 name size bytes opts.chunk_size replies in
    record { messages = r.0; trust = trust; result = told r.1 }

module _ (write : Text → Disk → Disk) (sha256 : List ℕ → List ℕ) where
  -- Whether TLS is asked for, and whether the program is built with it.
  abbrev pub secured : Bool → Bool → Name → List ℕ → Disk → Disk × Result SendFileError (Unit {0})
  secured false built addr cert trust = (trust, ok tt)
  secured true true addr cert trust = trusted (connect write sha256 trust addr cert)
  secured true false addr cert trust = (trust, err unsupported)

  -- Behind `connect` of the socket.
  abbrev pub connected :
      Bool → Name → SendOptions → Text → ℕ → List ℕ → Disk → Result IoError Receiver → Sent
  connected built addr opts name size bytes trust (err e) = failed trust (no_connection e)
  connected built addr opts name size bytes trust (ok peer) =
      send_over opts name size bytes peer.replies (secured opts.tls built addr peer.cert trust)

  abbrev pub opened :
      Bool
      → Name
      → SendOptions
      → Text
      → Disk
      → Result IoError Receiver
      → Result IoError ℕ
      → Result IoError (List ℕ)
      → Sent
  opened built addr opts name trust tcp (err e) content = failed trust (no_stat e)
  opened built addr opts name trust tcp (ok size) (err e) = failed trust (no_open e)
  opened built addr opts name trust tcp (ok size) (ok bytes) =
      connected built addr opts name size bytes trust tcp

  unfoldable pub send_file :
      Bool → Name → Source → Option Text → SendOptions → Result IoError Receiver → Disk → Sent
  unfolding send_framed connect
  send_file built addr path name opts tcp trust =
      opened built addr opts (offered_name name path.file_name) trust tcp path.size path.content
