-- ===== src/Daemon/Receive/Transfer.antt =====
-- A whole transfer of crates/kvm-daemon/src/file_transfer.rs: what a receive publishes, and that it takes
-- what the sender plans.
use self_kvm.Common.{
  Result-cases, ℕ, suc, ◌+◌, ◌%◌, ◌^◌, ◌≤◌, ◌<◌, ◌≡◌, refl, sym, ap, ◌∙◌, arith, List, [], ◌∷◌,
  true, false, length, Result, ok, err, All, inl, inr,
}
use mathlib.Core.Path.{subst}
use self_kvm.Common.Int.{IsU64}
use self_kvm.Proto.Utf8.{Text}
use self_kvm.Proto.Message.{Message, file_offer, file_accept}
use self_kvm.Core.FileName.{FileError, sanitize_filename}
use self_kvm.Core.FileTransfer.{
  FileReassembler, begin, max_chunk_size, plan_messages, plan_loop, chunks, at_least_one,
}
use self_kvm.Core.FileTransfer.Accept.{begin-IsAccounted}
use self_kvm.Core.FileTransfer.Plan.{concat, concat-chunks, IsBlock, chunks-IsBlock}
use self_kvm.Daemon.Receive.{ReceiveError, rejected, recv_body, recv_file}
use self_kvm.Daemon.Receive.Delivery.{Delivers, recv_body_complete, recv_body-Received}

begin-fields :
    (id : ℕ) (name : Text) (size limit : ℕ) (r : FileReassembler)
    → begin id name size limit ≡ ok r
    → (r.id ≡ id) × (r.next_seq ≡ 0) × (r.received ≡ 0) × (r.declared_size ≡ size)
unfolding begin
begin-fields id name size limit r e = ground arith

pub begin-name :
    (id : ℕ) (name : Text) (size limit : ℕ) (r : FileReassembler)
    → begin id name size limit ≡ ok r
    → sanitize_filename name ≡ ok r.name
unfolding begin
begin-name id name size limit r e = ground arith

pub recv_file-begun :
    (limit id : ℕ) (name : Text) (size : ℕ) (ms : List Message) (r : FileReassembler) (out : List ℕ)
    → begin id name size limit ≡ ok r
    → recv_body r [] ms ≡ ok out
    → recv_file limit (file_offer id name size ∷ ms) ≡ (file_accept id true ∷ [], ok (r.name, out))
unfolding recv_file
recv_file-begun limit id name size ms r out a b = rw (a, recv_file, b)

recv_file-lost :
    (limit id : ℕ) (name : Text) (size : ℕ) (ms : List Message) (r : FileReassembler)
    (x : ReceiveError)
    → begin id name size limit ≡ ok r
    → recv_body r [] ms ≡ err x
    → (recv_file limit (file_offer id name size ∷ ms)).1 ≡ err x
unfolding recv_file
recv_file-lost limit id name size ms r x a b = rw (a, recv_file, b)

recv_file_declined :
    (limit id : ℕ) (name : Text) (size : ℕ) (ms : List Message) (x : FileError)
    → begin id name size limit ≡ err x
    → recv_file limit (file_offer id name size ∷ ms) ≡ (file_accept id false ∷ [], err (rejected x))
unfolding recv_file
recv_file_declined limit id name size ms x a = rw (a, recv_file)

abbrev outcome :
    List Message × Result ReceiveError (Text × List ℕ) → Result ReceiveError (Text × List ℕ)
outcome t = t.1

Delivers-at :
    (ms : List Message) {i j n m : ℕ} {out content : List ℕ}
    → i ≡ j
    → n ≡ m
    → out ≡ content
    → Delivers i n ms out
    → Delivers j m ms content
Delivers-at ms {i} {j} {n} {m} {out} {content} p q e d =
    subst (λ x. Delivers x m ms content) p
      (subst (λ x. Delivers i x ms content) q (subst (λ x. Delivers i n ms x) e d))

no_file : {x : ReceiveError} {p : Text × List ℕ} → ¬ (err x ≡ ok p)
no_file c = ground arith

ok_both :
    {a b : Text} {c d : List ℕ}
    → ◌≡◌ {A = Result ReceiveError (Text × List ℕ)} (ok (a, c)) (ok (b, d))
    → (a ≡ b) × (c ≡ d)
ok_both e = ground arith

-- A file is published only when the sender delivered it: when a receive that begins with an offer
-- gives a name and a content, and the offered size is a u64, then the offer's name has that name as
-- its sanitised form, its size is that of the content and within the limit, and the messages after the
-- offer begin with the content's blocks, in order and without a gap, and the count of them.
pub recv_file-Delivers :
    (limit id : ℕ) (name base : Text) (size : ℕ) (ms : List Message) (content : List ℕ)
    → IsU64 size
    → (recv_file limit (file_offer id name size ∷ ms)).1 ≡ ok (base, content)
    → Delivers id 0 ms content
      × (length content ≡ size)
      × (size ≤ limit)
      × (sanitize_filename name ≡ ok base)
recv_file-Delivers limit id name base size ms content h e =
    elim (Result-cases (begin id name size limit)) [
      | inl (r, a) ↦ elim (Result-cases (recv_body r [] ms)) [
        | inl (out, b) ↦
            let (en, eo) =
              ok_both (sym (ap outcome (recv_file-begun limit id name size ms r out a b)) ∙ e) in
            let (acc, le, s) = begin-IsAccounted id name size limit r h a in
            let (i, n, z, d) = begin-fields id name size limit r a in
            let (o, e2, del, t) = recv_body-Received r [] ms out acc b in
            let same : o ≡ content = sym e2 ∙ eo in
            (
              Delivers-at ms i n same del,
              omega (arith, ap length same, t, z, d),
              omega (arith, d, le),
              s ∙ ap ok en,
            )
        | inr (x, b) ↦ absurd (no_file (sym (recv_file-lost limit id name size ms r x a b) ∙ e))
      ]
      | inr (x, a) ↦
          absurd (no_file (sym (ap outcome (recv_file_declined limit id name size ms x a)) ∙ e))
    ]

begin_takes :
    (id : ℕ) (name base : Text) (size limit : ℕ)
    → sanitize_filename name ≡ ok base
    → size ≤ limit
    → (r : FileReassembler) × (begin id name size limit ≡ ok r) × (r.name ≡ base)
unfolding begin
begin_takes id name base size limit h k = (
  record { id = id; name = base; declared_size = size; next_seq = 0; received = 0 },
  ground arith,
  refl,
)

plan_loop-Delivers :
    (id seq cs : ℕ) (blocks : List (List ℕ))
    → cs ≤ max_chunk_size
    → All (IsBlock cs) blocks
    → seq + length blocks < 2 ^ 32
    → Delivers id seq (plan_loop id seq blocks) (concat blocks)
unfolding plan_loop
plan_loop-Delivers id seq cs [] k h room = (refl, refl, refl)
plan_loop-Delivers id seq cs (b ∷ bs) k (i, is) room = (
  refl,
  refl,
  (i.0, omega (arith, i.1)),
  (concat bs, refl, rw (no_wrap) (plan_loop-Delivers id (seq + 1) cs bs k is (omega arith))),
)
  where
    no_wrap : (seq + 1) % 2 ^ 32 ≡ seq + 1
    no_wrap = omega arith

length-plan_loop :
    (id seq : ℕ) (blocks : List (List ℕ)) → length (plan_loop id seq blocks) ≡ suc (length blocks)
unfolding plan_loop
length-plan_loop id seq [] = refl
length-plan_loop id seq (b ∷ bs) = ap suc (length-plan_loop id ((seq + 1) % 2 ^ 32) bs)

plan_messages-Delivers :
    (id : ℕ) (bytes : List ℕ) (cs : ℕ)
    → 1 ≤ cs
    → cs ≤ max_chunk_size
    → length (chunks (length bytes) cs bytes) < 2 ^ 32
    → Delivers id 0 (plan_loop id 0 (chunks (length bytes) cs bytes)) bytes
plan_messages-Delivers id bytes cs h k room =
    Delivers-at (plan_loop id 0 (chunks (length bytes) cs bytes)) refl refl
      (concat-chunks (length bytes) cs bytes h (omega arith))
      (plan_loop-Delivers id 0 cs (chunks (length bytes) cs bytes) k
        (chunks-IsBlock (length bytes) cs bytes h) (omega (arith, room)))

-- The receiver takes what the sender plans: when the name has a sanitised form, the size is a u64 and
-- within the limit, the chunk size is within the largest one and there are fewer than 2 ^ 32 chunks,
-- then receiving the planned messages accepts the offer and gives the sanitised name and the bytes.
pub recv_file-plan_messages :
    (limit id : ℕ) (name base : Text) (bytes : List ℕ) (chunk_size : ℕ)
    → sanitize_filename name ≡ ok base
    → IsU64 (length bytes)
    → length bytes ≤ limit
    → chunk_size ≤ max_chunk_size
    → length (chunks (length bytes) (at_least_one chunk_size) bytes) < 2 ^ 32
    → recv_file limit (plan_messages id name bytes chunk_size)
      ≡ (file_accept id true ∷ [], ok (base, bytes))
unfolding plan_messages
recv_file-plan_messages limit id name base bytes chunk_size s h k c room =
    let cs = at_least_one chunk_size in
    let (r, a, en) = begin_takes id name base (length bytes) limit s k in
    let (i, n, z, d) = begin-fields id name (length bytes) limit r a in
    let (acc, le, _) = begin-IsAccounted id name (length bytes) limit r h a in
    let blocks = chunks (length bytes) cs bytes in
    recv_file-begun limit id name (length bytes) (plan_loop id 0 blocks) r bytes a (
      recv_body_complete r [] bytes (plan_loop id 0 blocks) acc
        (Delivers-at (plan_loop id 0 blocks) (sym i) (sym n) refl
          (plan_messages-Delivers id bytes cs (ground arith) (ground arith) room))
        (omega (arith, z, d)) (omega (arith, n, length-plan_loop id 0 blocks)))
    ∙ ap (λ (x : Text). (file_accept id true ∷ [], ok (x, bytes))) en
