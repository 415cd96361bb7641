-- ===== src/Daemon/Download/Named.antt =====
-- A file that crates/kvm-daemon/src/file_transfer.rs receives under a name that is free gets that name.
use self_kvm.Common.{
  ℕ, ◌≡◌, ◌≢◌, refl, sym, ap, ◌∙◌, arith, List, [], ◌∷◌, none, Result, ok, err, Result-cases,
  =l=_refl, inl, inr,
}
use mathlib.Core.Path.{subst}
use self_kvm.Common.Map.{Name, lookup, insert, has, lookup-insert}
use self_kvm.Proto.Utf8.{Text}
use self_kvm.Proto.Message.{Message, file_offer}
use self_kvm.Core.FileName.{sanitize_filename}
use self_kvm.Core.FileTransfer.{FileReassembler, begin}
use self_kvm.Daemon.Receive.{recv_body, recv_file}
use self_kvm.Daemon.Publish.{Directory, incoming}
use self_kvm.Daemon.Publish.Safe.{different, incoming_apart, incoming-alternative, publish-free}
use self_kvm.Daemon.Download.{store, receive_into, recv_file_to_dir}
use self_kvm.Daemon.Download.Safe.{IsAdded, recv_file_to_dir-Delivered}

-- A name that nothing stands at is given.
store-named :
    (d : Directory) (token : ℕ) (offered name : Name) (bytes : List ℕ)
    → sanitize_filename offered ≡ ok name
    → lookup (incoming token) d ≡ none
    → lookup name d ≡ none
    → (store d token name (ok bytes)).1 ≡ ok name
store-named d token offered name bytes s free e =
    let tmp = incoming token in
    let apart = incoming_apart token offered name s in
    rw
      (publish-free (insert tmp bytes d) tmp name token bytes (rw (lookup-insert, =l=_refl tmp))
        apart (incoming-alternative token name) (still tmp apart))
      refl
  where
    still : (tmp : Name) → tmp ≢ name → lookup name (insert tmp bytes d) ≡ none
    still tmp apart = rw (lookup-insert, different tmp name apart, e)

-- What the receipt comes to is what is stored.
recv_file_to_dir-named :
    (d : Directory) (token limit id : ℕ) (name base : Text) (size : ℕ) (bytes : List ℕ)
    (ms : List Message)
    → (recv_file limit (file_offer id name size ∷ ms)).1 ≡ ok (base, bytes)
    → lookup (incoming token) d ≡ none
    → (recv_file_to_dir d token limit (file_offer id name size ∷ ms)).2
      ≡ (store d token base (ok bytes)).1
unfolding recv_file recv_file_to_dir
recv_file_to_dir-named d token limit id name base size bytes ms e free =
    elim (Result-cases (begin id name size limit)) [
      | inr (x, a) ↦ absurd (ground (arith, a))
      | inl (r, a) ↦ elim (Result-cases (recv_body r [] ms)) [
        | inr (x, b) ↦ absurd (ground (arith, a, b))
        | inl (out, b) ↦
            rw (a, receive_into, free, has, b)
              (ap (λ (q : Text × List ℕ). (store d token q.0 (ok q.1)).1) (both e a b))
      ]
    ]
  where
    both :
        {r : FileReassembler} {out : List ℕ}
        → (recv_file limit (file_offer id name size ∷ ms)).1 ≡ ok (base, bytes)
        → begin id name size limit ≡ ok r
        → recv_body r [] ms ≡ ok out
        → ◌≡◌ {A = Text × List ℕ} (r.name, out) (base, bytes)
    both {r} {out} e a b = ground (arith, rw (a, recv_file, b) at e)

ok_inj {ℓ m} : {A : Type ℓ} {B : Type m} {x y : A} → ◌≡◌ {A = Result B A} (ok x) (ok y) → x ≡ y
ok_inj e = ground arith

ok-err {ℓ m k} :
    {A : Type ℓ} {B : Type m} {C : Type k} {x : A} {y : B} {r : Result B A}
    → r ≡ ok x
    → r ≡ err y
    → C
ok-err p q = absurd (cc)

-- A receipt that goes well into a directory where the name is free.
pub receipt-IsAdded :
    (d : Directory) (token limit id : ℕ) (name base : Text) (size : ℕ) (bytes : List ℕ)
    (ms : List Message)
    → sanitize_filename name ≡ ok base
    → (recv_file limit (file_offer id name size ∷ ms)).1 ≡ ok (base, bytes)
    → lookup (incoming token) d ≡ none
    → lookup base d ≡ none
    → ((recv_file_to_dir d token limit (file_offer id name size ∷ ms)).2 ≡ ok base)
      × IsAdded d (recv_file_to_dir d token limit (file_offer id name size ∷ ms)).0 base bytes
receipt-IsAdded d token limit id name base size bytes ms s e free new_name =
    let n =
      recv_file_to_dir-named d token limit id name base size bytes ms e free
      ∙ store-named d token name base bytes s free new_name in
    elim (recv_file_to_dir-Delivered d token limit (file_offer id name size ∷ ms) free) [
      | inl (x, q, same) ↦ ok-err n q
      | inr (p, name', bytes', q, h, added) ↦
          let b = ok_inj (sym q ∙ n) in
          let c = ok_inj (sym h ∙ e) in
          (
            n,
            subst
                (λ (x : Name × List ℕ).
                  IsAdded d (recv_file_to_dir d token limit (file_offer id name size ∷ ms)).0 x.0
                    x.1)
                (pair b (ap (λ (x : Text × List ℕ). x.1) c)) added,
          )
    ]
  where
    pair : {p q : Name} {b c : List ℕ} → p ≡ q → b ≡ c → ◌≡◌ {A = Name × List ℕ} (p, b) (q, c)
    pair e f = cc

-- The replies are those of the receipt without a directory.
pub recv_file_to_dir-replies :
    (d : Directory) (token limit : ℕ) (ms : List Message)
    → (recv_file_to_dir d token limit ms).1 ≡ (recv_file limit ms).0
unfolding recv_file recv_file_to_dir
recv_file_to_dir-replies d token limit [] = refl
recv_file_to_dir-replies d token limit (file_offer id name size ∷ ms) =
    elim (Result-cases (begin id name size limit)) [
      | inr (x, a) ↦ rw (a, recv_file) refl
      | inl (r, a) ↦ rw (a, recv_file) refl
    ]
recv_file_to_dir-replies d token limit (_ ∷ ms) = refl
