-- ===== src/Daemon/SendFile/Filed.antt =====
-- `send_file` and `recv_file_to_dir` of crates/kvm-daemon/src/file_transfer.rs together.
use self_kvm.Common.{
  ℕ, ◌≤◌, ◌<◌, ◌^◌, ◌≡◌, ap, ◌∙◌, List, [], ◌∷◌, Bool, true, Option, none, Result, ok, err, length,
}
use self_kvm.Common.Int.{IsU64}
use self_kvm.Common.Map.{Name, lookup}
use self_kvm.Proto.Utf8.{Text}
use self_kvm.Proto.Message.{Message, file_accept}
use self_kvm.Net.TrustFile.{Disk}
use self_kvm.Core.FileName.{sanitize_filename}
use self_kvm.Core.FileTransfer.{chunks, at_least_one, max_chunk_size}
use self_kvm.Daemon.Receive.{ReceiveError}
use self_kvm.Daemon.Send.Stream.{send_framed-plan_messages, recv_file-send_framed}
use self_kvm.Daemon.Publish.{Directory, incoming}
use self_kvm.Daemon.Download.{recv_file_to_dir}
use self_kvm.Daemon.Download.Safe.{IsAdded}
use self_kvm.Daemon.Send.{SendError, send_framed}
use self_kvm.Daemon.SendFile.{
  told, SendOptions, Source, SendFileError, Sent, offered_name, secured, send_over, send_file,
}
use self_kvm.Daemon.Download.Named.{receipt-IsAdded, recv_file_to_dir-replies}

-- What a sender and a receiver come to.
abbrev pub IsFiled : Sent → Directory → ℕ → ℕ → List Message → Name → List ℕ → Type 0
IsFiled sent d token limit replies base bytes =
    let r = recv_file_to_dir d token limit sent.messages in
    (sent.result ≡ ok tt) × (r.1 ≡ replies) × (r.2 ≡ ok base) × IsAdded d r.0 base bytes

send_over-IsFiled :
    (opts : SendOptions) (name base : Text) (bytes : List ℕ) (trust : Disk) (d : Directory)
    (token limit : ℕ)
    → sanitize_filename name ≡ ok base
    → IsU64 (length bytes)
    → length bytes ≤ limit
    → opts.chunk_size ≤ max_chunk_size
    → length (chunks (length bytes) (at_least_one opts.chunk_size) bytes) < 2 ^ 32
    → lookup (incoming token) d ≡ none
    → lookup base d ≡ none
    → IsFiled
        (send_over opts name (length bytes) bytes (file_accept 1 true ∷ []) (trust, ok tt))
        d
        token
        limit
        (file_accept 1 true ∷ [])
        base
        bytes
unfolding send_framed
send_over-IsFiled opts name base bytes trust d token limit s h l k room free new_name =
    let sent = send_framed-plan_messages 1 1 name bytes opts.chunk_size [] h k room in
    let got = recv_file-send_framed limit 1 name base bytes opts.chunk_size s h l k room in
    let kept =
      receipt-IsAdded d token limit 1 name base (length bytes) bytes _ s
        (ap (λ (x : List Message × Result ReceiveError (Text × List ℕ)). x.1) got) free new_name in
    (
      ap (λ (x : List Message × Result SendError (Unit {0})). told x.1) sent,
      recv_file_to_dir-replies d token limit _
          ∙ ap (λ (x : List Message × Result ReceiveError (Text × List ℕ)). x.0) got,
      kept.0,
      kept.1,
    )

module _ (write : Text → Disk → Disk) (sha256 : List ℕ → List ℕ) where
  -- A file that is sent arrives: the receiver answers as the sender is answered, and the bytes are in
  -- its directory, where nothing else has changed, at the sanitised form of the name that is offered,
  -- which is the given name, the last component of the path, or `file.bin`. This is so when the length
  -- of the file is what its metadata says, a u64 and within the limit, the connection is there and, if
  -- TLS is asked for, trusted, the chunk size is within the largest one, there are fewer than 2 ^ 32
  -- chunks, and nothing stands in the directory under that name and that of the token.
  pub send_file-IsFiled :
      (built : Bool) (addr : Name) (path : Source) (name : Option Text) (opts : SendOptions)
      (cert : List ℕ) (trust : Disk) (base : Text) (bytes : List ℕ) (d : Directory)
      (token limit : ℕ)
      → path.size ≡ ok (length bytes)
      → path.content ≡ ok bytes
      → (secured write sha256 opts.tls built addr cert trust).1 ≡ ok tt
      → sanitize_filename (offered_name name path.file_name) ≡ ok base
      → IsU64 (length bytes)
      → length bytes ≤ limit
      → opts.chunk_size ≤ max_chunk_size
      → length (chunks (length bytes) (at_least_one opts.chunk_size) bytes) < 2 ^ 32
      → lookup (incoming token) d ≡ none
      → lookup base d ≡ none
      → IsFiled
          (send_file write sha256 built addr path name opts
            (ok (record { cert = cert; replies = file_accept 1 true ∷ [] }))
            trust)
          d
          token
          limit
          (file_accept 1 true ∷ [])
          base
          bytes
  unfolding send_file
  send_file-IsFiled built addr path name opts cert trust base bytes d token limit z c t s h l k room
        free new_name =
      rw (z, c) (over (secured write sha256 opts.tls built addr cert trust) t)
    where
      over :
          (q : Disk × Result SendFileError (Unit {0}))
          → q.1 ≡ ok tt
          → IsFiled
              (send_over opts
                (offered_name name path.file_name)
                (length bytes)
                bytes
                (file_accept 1 true ∷ [])
                q)
              d
              token
              limit
              (file_accept 1 true ∷ [])
              base
              bytes
      over (t, ok u) e =
          send_over-IsFiled opts (offered_name name path.file_name) base bytes t d token limit s h l
            k room free new_name
      over (t, err x) e = absurd (cc e)
