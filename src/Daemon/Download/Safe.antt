-- ===== src/Daemon/Download/Safe.antt =====
-- A receive of crates/kvm-daemon/src/file_transfer.rs leaves a whole new file, or the directory as it was.
use self_kvm.Common.{
  ℕ, ◌≡◌, ◌≢◌, refl, sym, ap, ◌∙◌, arith, List, [], ◌∷◌, Bool, true, false, Result, ok, err, none,
  some, ◌=l=◌, =l=_refl, =l=→eq, Bool-cases, Result-cases, inl, inr, ◌⊎◌,
}
use mathlib.Core.Path.{subst}
use self_kvm.Common.Map.{Name, lookup, insert, remove, has, lookup-insert, lookup-remove}
use self_kvm.Proto.Message.{Message, file_offer}
use self_kvm.Core.FileName.{sanitize_filename}
use self_kvm.Core.FileTransfer.{FileReassembler, begin}
use self_kvm.Daemon.Receive.{ReceiveError, recv_body, recv_file}
use self_kvm.Daemon.Receive.Transfer.{recv_file-begun, begin-name}
use self_kvm.Daemon.Publish.{Directory, DiskError, already_exists, publish, incoming, alternative}
use self_kvm.Daemon.Publish.Safe.{IsPublished, publish-IsPublished}
use self_kvm.Daemon.Download.{
  DownloadError, refused, on_disk, tidy, store, receive_into, recv_file_to_dir,
}

-- The same entries, however they are listed.
abbrev pub IsSame : Directory → Directory → Type 0
IsSame d d' = (k : Name) → lookup k d' ≡ lookup k d

-- Nothing has come of it.
abbrev pub IsUntouched {ℓ} : {A : Type ℓ} → Directory → Directory × Result DownloadError A → Type ℓ
IsUntouched d r = ((e : DownloadError) × (r.1 ≡ err e)) × IsSame d r.0

-- There is one more entry, `bytes` at `p`.
pub record IsAdded (d d' : Directory) (p : Name) (bytes : List ℕ) : Type 0 where
  pub new_name : lookup p d ≡ none
  pub content : lookup p d' ≡ some bytes
  pub others : (k : Name) → k ≢ p → lookup k d' ≡ lookup k d

remove-IsSame : (d : Directory) (tmp : Name) → lookup tmp d ≡ none → IsSame d (remove tmp d)
remove-IsSame d tmp e k = elim (Bool-cases (tmp =l= k)) [
  | inl q ↦ rw (lookup-remove, q) (sym (ap (λ (x : Name). lookup x d) (sym (=l=→eq tmp k q)) ∙ e))
  | inr q ↦ rw (lookup-remove, q)
]

false-true {ℓ} : {b : Bool} {A : Type ℓ} → b ≡ false → b ≡ true → A
false-true p q = absurd (cc)

-- Writing the temporary file and removing it again.
written-IsSame :
    (d : Directory) (tmp : Name) (bytes : List ℕ)
    → lookup tmp d ≡ none
    → IsSame d (remove tmp (insert tmp bytes d))
written-IsSame d tmp bytes e k = elim (Bool-cases (tmp =l= k)) [
  | inl q ↦ rw (lookup-remove, q) (sym (ap (λ (x : Name). lookup x d) (sym (=l=→eq tmp k q)) ∙ e))
  | inr q ↦ rw (lookup-remove, q, lookup-insert, q)
]

-- What is published beside the temporary file is added to the directory without it.
published-IsAdded :
    (d d' : Directory) (tmp p : Name) (bytes : List ℕ)
    → lookup tmp d ≡ none
    → IsPublished (insert tmp bytes d) d' tmp p bytes
    → IsAdded d d' p bytes
published-IsAdded d d' tmp p bytes e h = record {
  new_name = free;
  content = h.content;
  others = others;
}
  where
    free : lookup p d ≡ none
    free = ground (arith, lookup-insert tmp p bytes d, h.new_name)

    other_name : (k : Name) → (tmp =l= k) ≡ false → k ≢ tmp
    other_name k q z = false-true q (rw z (=l=_refl tmp))

    others : (k : Name) → k ≢ p → lookup k d' ≡ lookup k d
    others k n = elim (Bool-cases (tmp =l= k)) [
      | inl q ↦ subst (λ (x : Name). lookup x d' ≡ lookup x d) (=l=→eq tmp k q) (h.no_rest ∙ sym e)
      | inr q ↦ h.others k n (other_name k q) ∙ rw (lookup-insert, q)
    ]

-- Either nothing has come of it, or what was received is a new file.
abbrev Outcome :
    Directory → Directory × Result DownloadError Name → Result ReceiveError (List ℕ) → Type 0
Outcome d r b =
    IsUntouched d r
    ⊎ ((p : Name) × (bytes : List ℕ) × (r.1 ≡ ok p) × (b ≡ ok bytes) × IsAdded d r.0 p bytes)

store-Outcome :
    (d : Directory) (token : ℕ) (offered name : Name) (b : Result ReceiveError (List ℕ))
    → sanitize_filename offered ≡ ok name
    → lookup (incoming token) d ≡ none
    → Outcome d (store d token name b) b
store-Outcome d token offered name (err e) s free =
    inl ((refused e, refl), remove-IsSame d (incoming token) free)
store-Outcome d token offered name (ok bytes) s free =
    tidied (publish (insert tmp bytes d) tmp name token)
      (publish-IsPublished (insert tmp bytes d) token offered name bytes s here)
  where
    tmp : Name
    tmp = incoming token

    here : lookup tmp (insert tmp bytes d) ≡ some bytes
    here = rw (lookup-insert, =l=_refl tmp)

    renamed :
        {q p : Name}
        → ◌≡◌ {A = Result DiskError Name} (ok q) (ok p)
        → ◌≡◌ {A = Result DownloadError Name} (ok q) (ok p)
    renamed e = ground arith

    tidied :
        (r : Directory × Result DiskError Name)
        → ((p : Name) × (r.1 ≡ ok p) × IsPublished (insert tmp bytes d) r.0 tmp p bytes)
          ⊎ ((r ≡ (insert tmp bytes d, err already_exists))
              × (lookup name (insert tmp bytes d) ≢ none)
              × (lookup (alternative token name) (insert tmp bytes d) ≢ none))
        → Outcome d (tidy tmp r) (ok bytes)
    tidied (d', ok q) (inl (p, e, h)) =
        inr (p, bytes, renamed e, refl, published-IsAdded d d' tmp p bytes free h)
    tidied (d', err x) (inl (p, e, h)) = absurd (ground arith)
    tidied r (inr (e, a, b)) =
        rw e (inl ((on_disk already_exists, refl), written-IsSame d tmp bytes free))

receive_into-Outcome :
    (d : Directory) (token : ℕ) (offered : Name) (r : FileReassembler) (ms : List Message)
    → sanitize_filename offered ≡ ok r.name
    → lookup (incoming token) d ≡ none
    → Outcome d (receive_into d token r ms) (recv_body r [] ms)
receive_into-Outcome d token offered r ms s free =
    rw (free, has) (store-Outcome d token offered r.name (recv_body r [] ms) s free)

-- What a receive into a directory comes to, when nothing stands under the token's name.
abbrev pub Delivered : Directory → ℕ → ℕ → List Message → Type 0
Delivered d token limit ms =
    let r = recv_file_to_dir d token limit ms in
    ((e : DownloadError) × (r.2 ≡ err e) × IsSame d r.0)
    ⊎ ((p name : Name) × (bytes : List ℕ) × (r.2 ≡ ok p)
        × ((recv_file limit ms).1 ≡ ok (name, bytes))
        × IsAdded d r.0 p bytes)

taken :
    (d : Directory) (token limit id : ℕ) (name : Name) (size : ℕ) (ms : List Message)
    (r : FileReassembler)
    → begin id name size limit ≡ ok r
    → Outcome d (receive_into d token r ms) (recv_body r [] ms)
    → ((e : DownloadError) × ((receive_into d token r ms).1 ≡ err e)
        × IsSame d (receive_into d token r ms).0)
      ⊎ ((p name' : Name) × (bytes : List ℕ) × ((receive_into d token r ms).1 ≡ ok p)
          × ((recv_file limit (file_offer id name size ∷ ms)).1 ≡ ok (name', bytes))
          × IsAdded d (receive_into d token r ms).0 p bytes)
taken d token limit id name size ms r a (inl ((e, x), same)) = inl (e, x, same)
taken d token limit id name size ms r a (inr (p, bytes, x, b, added)) = inr (
  p,
  r.name,
  bytes,
  x,
  ap (λ (t : List Message × Result ReceiveError (Name × List ℕ)). t.1)
      (recv_file-begun limit id name size ms r bytes a b),
  added,
)

-- A receive is all or nothing: when nothing stands under the token's name, then either it ends in an
-- error and every entry of the directory is as it was, or the bytes that were received are at the name
-- it gives, where nothing was before, and every other entry is as it was.
pub recv_file_to_dir-Delivered :
    (d : Directory) (token limit : ℕ) (ms : List Message)
    → lookup (incoming token) d ≡ none
    → Delivered d token limit ms
unfolding recv_file_to_dir
recv_file_to_dir-Delivered d token limit [] free = inl (_, refl, λ k. refl)
recv_file_to_dir-Delivered d token limit (file_offer id name size ∷ ms) free =
    elim (Result-cases (begin id name size limit)) [
      | inr (x, a) ↦ rw a (inl (_, refl, λ k. refl))
      | inl (r, a) ↦ rw a (
          taken d token limit id name size ms r a
            (receive_into-Outcome d token name r ms (begin-name id name size limit r a) free))
    ]
recv_file_to_dir-Delivered d token limit (_ ∷ ms) free = inl (_, refl, λ k. refl)
