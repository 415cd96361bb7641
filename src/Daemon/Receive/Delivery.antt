-- ===== src/Daemon/Receive/Delivery.antt =====
-- What a receive of crates/kvm-daemon/src/file_transfer.rs accepts, and that it takes what the sender
-- plans.
use self_kvm.Common.{
  Result-cases, ℕ, ◌+◌, ◌^◌, ◌≤◌, ◌≡◌, refl, sym, ap, ◌∙◌, arith, List, [], ◌∷◌, ◌++◌, length,
  Result, ok, err, append_assoc, append-nil, length-append, inl, inr,
}
use self_kvm.Proto.Message.{Message, file_chunk, file_end}
use self_kvm.Core.FileName.{FileError, FileResult}
use self_kvm.Core.FileTransfer.{FileReassembler, accept, complete, max_chunk_size}
use self_kvm.Core.FileTransfer.Accept.{
  IsAccounted, IsNext, after, accept-next, accept-IsNext, after-IsAccounted,
}
use self_kvm.Core.FileTransfer.Plan.{IsBlock}
use self_kvm.Daemon.Receive.{ReceiveError, rejected, recv_body}

-- The messages begin with the chunks of transfer `id` numbered from `seq` on, without a gap, and its
-- end, which counts them; `out` is what the chunks carry.
abbrev pub Delivers : ℕ → ℕ → List Message → List ℕ → Type 0
Delivers id seq [] out = ⊥
Delivers id seq (file_chunk i s bytes ∷ ms) out =
    (i ≡ id)
    × (s ≡ seq)
    × IsBlock max_chunk_size bytes
    × ((rest : List ℕ) × (out ≡ bytes ++ rest) × Delivers id (seq + 1) ms rest)
Delivers id seq (file_end i count ∷ ms) out = (i ≡ id) × (count ≡ seq) × (out ≡ [])
Delivers id seq (_ ∷ ms) out = ⊥

complete-total :
    (r : FileReassembler) (id count : ℕ) {u : Unit {0}}
    → complete r id count ≡ ok u
    → (id ≡ r.id) × (count ≡ r.next_seq) × (r.received ≡ r.declared_size)
unfolding complete
complete-total r id count h = ground arith

total-complete :
    (r : FileReassembler) (id count : ℕ)
    → id ≡ r.id
    → count ≡ r.next_seq
    → r.received ≡ r.declared_size
    → complete r id count ≡ ok tt
unfolding complete
total-complete r id count h k l = ground arith

-- One accepted chunk is one round of the loop.
recv_body-chunk :
    (r : FileReassembler) (id seq : ℕ) (bytes written : List ℕ) (ms : List Message)
    → IsAccounted r
    → IsNext r id seq bytes
    → recv_body r written (file_chunk id seq bytes ∷ ms)
      ≡ recv_body (after r bytes) (written ++ bytes) ms
unfolding recv_body
recv_body-chunk r id seq bytes written ms h n =
    rw (accept-next r id seq bytes h n, recv_body)
      (ap (λ (t : FileReassembler × FileResult (List ℕ)). recv_body t.0 (written ++ bytes) ms)
        (accept-next r id seq bytes h n))

Delivers-length :
    (id seq : ℕ) (ms : List Message) (out : List ℕ) → Delivers id seq ms out → 1 ≤ length ms
Delivers-length id seq [] out d = absurd d
Delivers-length id seq (m ∷ ms) out d = omega arith

-- A complete delivery of the bytes that are still missing is received, its bytes in order.
pub recv_body_complete :
    (r : FileReassembler) (written out : List ℕ) (ms : List Message)
    → IsAccounted r
    → Delivers r.id r.next_seq ms out
    → r.received + length out ≡ r.declared_size
    → r.next_seq + length ms ≤ 2 ^ 32
    → recv_body r written ms ≡ ok (written ++ out)
unfolding recv_body
recv_body_complete r written out (file_chunk id seq bytes ∷ ms) h (ei, es, b, (rest, eo, d)) total
      room =
    recv_body-chunk r id seq bytes written ms h next
    ∙ recv_body_complete (after r bytes) (written ++ bytes) rest ms
        (after-IsAccounted r id seq bytes h next) d (omega (arith, sizes)) (omega arith)
    ∙ ap ok (append_assoc written bytes rest ∙ ap (λ (t : List ℕ). written ++ t) (sym eo))
  where
    sizes : length out ≡ length bytes + length rest
    sizes = rw eo (length-append bytes rest)

    next : IsNext r id seq bytes
    next = record {
      same_id = ei;
      in_order = es;
      some_bytes = b.0;
      one_chunk = b.1;
      fits = omega (arith, sizes);
      countable = omega (arith, Delivers-length r.id (r.next_seq + 1) ms rest d);
    }
recv_body_complete r written out (file_end id count ∷ ms) h (ei, ec, eo) total room = rw (
  total-complete r id count ei ec (omega (arith, ap length eo, total)),
  recv_body,
  eo,
  append-nil,
)
recv_body_complete r written out [] h d total room = absurd d
recv_body_complete r written out (_ ∷ ms) h d total room = absurd d

recv_body_refused :
    (r : FileReassembler) (id seq : ℕ) (bytes written : List ℕ) (ms : List Message) (e : FileError)
    → (accept r id seq bytes).1 ≡ err e
    → recv_body r written (file_chunk id seq bytes ∷ ms) ≡ err (rejected e)
unfolding recv_body
recv_body_refused r id seq bytes written ms e h = rw (h, recv_body)

recv_body_incomplete :
    (r : FileReassembler) (id count : ℕ) (written : List ℕ) (ms : List Message) (e : FileError)
    → complete r id count ≡ err e
    → recv_body r written (file_end id count ∷ ms) ≡ err (rejected e)
unfolding recv_body
recv_body_incomplete r id count written ms e h = rw (h, recv_body)

recv_body-end :
    (r : FileReassembler) (id count : ℕ) (written : List ℕ) (ms : List Message) (u : Unit {0})
    → complete r id count ≡ ok u
    → recv_body r written (file_end id count ∷ ms) ≡ ok written
unfolding recv_body
recv_body-end r id count written ms u h = rw (h, recv_body)

-- What is received was delivered: the chunks in order, all the missing bytes, and the count at the end.
abbrev Received : FileReassembler → List ℕ → List Message → List ℕ → Type 0
Received r written ms res =
    (out : List ℕ) × (res ≡ written ++ out)
    × Delivers r.id r.next_seq ms out
    × (r.received + length out ≡ r.declared_size)

no_result : {x : ReceiveError} {res : List ℕ} → ¬ (err x ≡ ok res)
no_result c = ground arith

whole :
    {written res : List ℕ}
    → ◌≡◌ {A = Result ReceiveError (List ℕ)} (ok written) (ok res)
    → res ≡ written ++ []
whole {written} e = ground (arith, append-nil written)

Received-step :
    (r : FileReassembler) (id seq : ℕ) (bytes written : List ℕ) (ms : List Message) (res : List ℕ)
    → IsNext r id seq bytes
    → Received (after r bytes) (written ++ bytes) ms res
    → Received r written (file_chunk id seq bytes ∷ ms) res
Received-step r id seq bytes written ms res n (rest, er, d, t) = (
  bytes ++ rest,
  er ∙ append_assoc written bytes rest,
  (n.same_id, n.in_order, (n.some_bytes, n.one_chunk), (rest, refl, d)),
  omega (arith, length-append bytes rest, t),
)

pub recv_body-Received :
    (r : FileReassembler) (written : List ℕ) (ms : List Message) (res : List ℕ)
    → IsAccounted r
    → recv_body r written ms ≡ ok res
    → Received r written ms res
unfolding recv_body
recv_body-Received r written (file_chunk id seq bytes ∷ ms) res h e =
    elim (Result-cases (accept r id seq bytes).1) [
      | inl (out, a) ↦
          let n = accept-IsNext r id seq bytes out h a in
          Received-step r id seq bytes written ms res n (
            recv_body-Received (after r bytes) (written ++ bytes) ms res
              (after-IsAccounted r id seq bytes h n)
              (sym (recv_body-chunk r id seq bytes written ms h n) ∙ e))
      | inr (x, a) ↦ absurd (no_result (sym (recv_body_refused r id seq bytes written ms x a) ∙ e))
    ]
recv_body-Received r written (file_end id count ∷ ms) res h e =
    elim (Result-cases (complete r id count)) [
      | inl (u, a) ↦
          let (ei, ec, t) = complete-total r id count a in
          (
            [],
            whole (sym (recv_body-end r id count written ms u a) ∙ e),
            (ei, ec, refl),
            omega (arith, t),
          )
      | inr (x, a) ↦ absurd (no_result (sym (recv_body_incomplete r id count written ms x a) ∙ e))
    ]
recv_body-Received r written [] res h e = absurd (ground arith)
recv_body-Received r written (_ ∷ ms) res h e = absurd (no_result e)
