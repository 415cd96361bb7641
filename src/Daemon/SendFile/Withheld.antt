-- ===== src/Daemon/SendFile/Withheld.antt =====
-- What `send_file` of crates/kvm-daemon/src/file_transfer.rs gives to a receiver that is not trusted.
use self_kvm.Common.{
  ℕ, ◌≡◌, ◌≢◌, refl, List, [], Bool, true, false, Option, some, ok, err, Result-cases, inl, inr,
  All,
}
use self_kvm.Common.Int.{IsByte}
use self_kvm.Common.Map.{Name, lookup}
use self_kvm.Proto.Utf8.{Text}
use self_kvm.Proto.Message.{Message}
use self_kvm.Net.Trust.{fingerprint, Verdict}
use self_kvm.Net.TrustFile.{Disk, connect}
use self_kvm.Net.TrustFile.Pinned.{pins_of, verdict-pinned}
use self_kvm.Daemon.SendFile.{
  SendOptions, Source, Receiver, offered_name, secured, trusted, send_over, send_file,
}

module _ (write : Text → Disk → Disk) (sha256 : List ℕ → List ℕ) where
  untrusted_over :
      (opts : SendOptions) (name : Text) (size : ℕ) (bytes : List ℕ) (ms : List Message)
      (q : Disk × Verdict)
      → q.1 ≢ ok tt
      → (send_over opts name size bytes ms (trusted q)).messages ≡ []
  untrusted_over opts name size bytes ms (t, ok u) h = absurd (h refl)
  untrusted_over opts name size bytes ms (t, err e) h = refl

  module _ (writes : (t : Text) (file : Disk) → write t file ≡ some t)
      (digests : (c : List ℕ) → All IsByte (sha256 c)) where
    withheld :
        (tls built : Bool) (addr : Name) (opts : SendOptions) (name : Text) (size : ℕ)
        (bytes : List ℕ) (ms : List Message) (cert c : List ℕ) (trust : Disk)
        → tls ≡ true
        → lookup addr (pins_of trust) ≡ some (fingerprint sha256 c)
        → sha256 cert ≢ sha256 c
        → (send_over opts name size bytes ms
            (secured write sha256 tls built addr cert trust)).messages
          ≡ []
    withheld true true addr opts name size bytes ms cert c trust t h n =
        untrusted_over opts name size bytes ms (connect write sha256 trust addr cert)
          (λ e. n ((verdict-pinned write sha256 writes digests trust addr c cert h).0 e))
    withheld true false addr opts name size bytes ms cert c trust t h n = refl
    withheld false built addr opts name size bytes ms cert c trust t h n = absurd (cc t)

    -- With TLS asked for, nothing of a file is sent to a receiver whose certificate has not the digest
    -- that is pinned for its address, not even its name, whether the program is built with TLS or not,
    -- provided that writes to the trust file succeed and a digest is bytes.
    pub send_file-withholds :
        (built : Bool) (addr : Name) (path : Source) (name : Option Text) (opts : SendOptions)
        (peer : Receiver) (trust : Disk) (c : List ℕ)
        → opts.tls ≡ true
        → lookup addr (pins_of trust) ≡ some (fingerprint sha256 c)
        → sha256 peer.cert ≢ sha256 c
        → (send_file write sha256 built addr path name opts (ok peer) trust).messages ≡ []
    unfolding send_file
    send_file-withholds built addr path name opts peer trust c t h n =
        elim (Result-cases path.size) [
          | inr (x, a) ↦ rw a refl
          | inl (size, a) ↦ elim (Result-cases path.content) [
            | inr (x, b) ↦ rw (a, b) refl
            | inl (bytes, b) ↦
                rw (a, b)
                  (withheld opts.tls built addr opts (offered_name name path.file_name) size bytes
                    peer.replies peer.cert c trust t h n)
          ]
        ]
