-- ===== src/Daemon/Fill/Reads.antt =====
-- Short reads make no difference to crates/kvm-daemon/src/file_transfer.rs.
use self_kvm.Common.{
  ℕ, zero, suc, Bool, true, false, if◌then◌else◌, ◌+◌, ◌-◌, ◌%◌, ◌^◌, ◌≤◌, ◌≡◌, ◌≢◌, refl, sym, ap,
  ◌∙◌, arith, List, [], ◌∷◌, ◌++◌, ◌⊎◌, inl, inr, length, take, drop, length-drop, ◌==◌, Result, ok,
  err,
}
use self_kvm.Proto.Message.{Message}
use self_kvm.Net.Transport.{IoError}
use self_kvm.Core.FileTransfer.{chunk_msg}
use self_kvm.Daemon.Send.{SendError, send_loop, too_many_chunks}
use self_kvm.Daemon.Fill.{
  Filled, stuck, failed, filled, endless, unreadable, sending, fill_loop, fill, filled_by, prepend,
  LoopResult, sent_by, stream_loop,
}

no_bytes : (bs : List ℕ) → length bs ≤ 0 → bs ≡ []
no_bytes [] h = refl
no_bytes (b ∷ bs) h = absurd (omega arith)

sub_zero : (n : ℕ) → n - 0 ≡ n
sub_zero n = omega arith

suc-sub : (n m : ℕ) → suc n - suc m ≡ n - m
suc-sub n m = omega arith

take-more :
    (bs cs : List ℕ) (n : ℕ) → length bs ≤ n → take n (bs ++ cs) ≡ bs ++ take (n - length bs) cs
take-more [] cs n h = rw (sub_zero n)
take-more (b ∷ bs) cs zero h = absurd (omega arith)
take-more (b ∷ bs) cs (suc n) h = rw (suc-sub n (length bs), take-more bs cs n (omega arith))

drop-more : (bs cs : List ℕ) (n : ℕ) → length bs ≤ n → drop n (bs ++ cs) ≡ drop (n - length bs) cs
drop-more [] cs n h = rw (sub_zero n)
drop-more (b ∷ bs) cs zero h = absurd (omega arith)
drop-more (b ∷ bs) cs (suc n) h = rw (suc-sub n (length bs)) (drop-more bs cs n (omega arith))

-- One round of the loop over bytes, with the block and the rest under a name.
send_loop-block :
    (fuel id cs seq sent b : ℕ) (bs block rest : List ℕ)
    → block ≡ take cs (b ∷ bs)
    → rest ≡ drop cs (b ∷ bs)
    → send_loop (suc fuel) id cs seq sent (b ∷ bs) ≡ (
        let again = send_loop fuel id cs (seq + 1) ((sent + length block) % 2 ^ 64) rest in
        if seq == 2 ^ 32 - 1
        then (chunk_msg id seq block ∷ [], err too_many_chunks)
        else (chunk_msg id seq block ∷ again.0, again.1))
unfolding send_loop
send_loop-block fuel id cs seq sent b bs block rest e f = rw (e, f) refl

module _ {R : Type 0} (read : R → ℕ → Result IoError (List ℕ) × R) (content : R → List ℕ) where
  -- A read for `n` bytes takes some of them off the front, at most `n`, and none at the end only.
  abbrev pub IsRead : ℕ → List ℕ → Result IoError (List ℕ) × R → Type 0
  IsRead n before (ok bs, r) =
      (before ≡ bs ++ content r) × (length bs ≤ n) × (n ≢ 0 → bs ≡ [] → before ≡ [])
  IsRead n before (err e, r) = Unit {0}

  -- A `fill` takes off as much as there is room for, or an error of a read ends it.
  abbrev pub IsFilled : ℕ → List ℕ → Filled × R → Type 0
  IsFilled n before (stuck, r) = ⊥
  IsFilled n before (failed e, r) = (s : R) × (k : ℕ) × ((read s k).0 ≡ err e)
  IsFilled n before (filled bs, r) = (bs ≡ take n before) × (content r ≡ drop n before)

  -- The loop over bytes, with its errors among those of the loop over the source.
  abbrev pub lifted : List Message × Result SendError (ℕ × ℕ) → LoopResult read
  lifted (ms, ok p) = (ms, ok p)
  lifted (ms, err e) = (ms, err (sending e))

  abbrev pub IsStreamed : LoopResult read → LoopResult read → Type 0
  IsStreamed want got =
      (got ≡ want)
      ⊎ ((e : IoError) × (s : R) × (k : ℕ) × ((read s k).0 ≡ err e) × (got.1 ≡ err (unreadable e)))

  module _ (reads : (r : R) (n : ℕ) → IsRead n (content r) (read r n)) where
    prepend-IsFilled :
        (n : ℕ) (before bs : List ℕ) (s : R) (q : Filled × R)
        → before ≡ bs ++ content s
        → length bs ≤ n
        → IsFilled (n - length bs) (content s) q
        → IsFilled n before (prepend read bs q)
    prepend-IsFilled n before bs s (stuck, r) e h f = f
    prepend-IsFilled n before bs s (failed _, r) e h f = f
    prepend-IsFilled n before bs s (filled cs, r) e h f = (
      rw (e, f.0) (sym (take-more bs (content s) n h)),
      rw (e, f.1) (sym (drop-more bs (content s) n h)),
    )

    filled_by-IsFilled :
        (fuel n : ℕ) (before : List ℕ) (r : R) (q : Result IoError (List ℕ) × R)
        → suc n ≤ suc fuel
        → (read r (suc n)) ≡ q
        → IsRead (suc n) before q
        → ((s : R) (k : ℕ) → k ≤ fuel → IsFilled k (content s) (fill_loop read fuel s k))
        → IsFilled (suc n) before (filled_by read (fill_loop read fuel) (suc n) q)
    filled_by-IsFilled fuel n before r (err e, s) h p i f = (r, suc n, ap (λ x. x.0) p)
    filled_by-IsFilled fuel n before r (ok [], s) h p i f =
        let e = i.2 (omega arith) refl in (rw e refl, sym i.0 ∙ rw e refl)
    filled_by-IsFilled fuel n before r (ok (b ∷ bs), s) h p i f =
        prepend-IsFilled (suc n) before (b ∷ bs) s _ i.0 i.1
          (f s (suc n - length (b ∷ bs)) (omega arith))

    fill_loop-IsFilled :
        (fuel : ℕ) (r : R) (n : ℕ) → n ≤ fuel → IsFilled n (content r) (fill_loop read fuel r n)
    unfolding fill_loop
    fill_loop-IsFilled fuel r zero h = (refl, refl)
    fill_loop-IsFilled zero r (suc n) h = absurd (omega arith)
    fill_loop-IsFilled (suc fuel) r (suc n) h =
        filled_by-IsFilled fuel n (content r) r (read r (suc n)) h refl (reads r (suc n))
          (λ s k l. fill_loop-IsFilled fuel s k l)

    -- However short the reads are, `fill` comes to an end: it has taken from the source as many bytes as
    -- there is room for, or all that are left, or it returns an error that a read gave.
    pub fill-IsFilled : (r : R) (n : ℕ) → IsFilled n (content r) (fill read r n)
    unfolding fill
    fill-IsFilled r n = fill_loop-IsFilled n r n (omega arith)

    more-IsStreamed :
        (full : Bool) (m : Message) (w : List Message × Result SendError (ℕ × ℕ))
        (g : LoopResult read)
        → IsStreamed (lifted w) g
        → IsStreamed
            (lifted (if full then (m ∷ [], err too_many_chunks) else (m ∷ w.0, w.1)))
            (if full then (m ∷ [], err (sending too_many_chunks)) else (m ∷ g.0, g.1))
    more-IsStreamed true m w g h = inl refl
    more-IsStreamed false m (ms, ok p) g (inl e) = inl (rw e refl)
    more-IsStreamed false m (ms, err x) g (inl e) = inl (rw e refl)
    more-IsStreamed false m (ms, ok p) g (inr (e, s, k, d, f)) = inr (e, s, k, d, f)
    more-IsStreamed false m (ms, err x) g (inr (e, s, k, d, f)) = inr (e, s, k, d, f)

    -- At the end of the source.
    end-IsStreamed :
        (again : ℕ → ℕ → R → LoopResult read) (fuel id cs seq sent : ℕ) (q : Filled × R)
        → IsFilled cs [] q
        → IsStreamed (lifted (send_loop fuel id cs seq sent [])) (sent_by read again id seq sent q)
    unfolding send_loop
    end-IsStreamed again fuel id cs seq sent (stuck, r) f = elim f [ ]
    end-IsStreamed again fuel id cs seq sent (failed e, r) (s, k, d) = inr (e, s, k, d, refl)
    end-IsStreamed again fuel id cs seq sent (filled [], r) f = inl refl
    end-IsStreamed again fuel id zero seq sent (filled (b ∷ bs), r) f = absurd (cc f.0)
    end-IsStreamed again fuel id (suc cs) seq sent (filled (b ∷ bs), r) f = absurd (cc f.0)

    round-IsStreamed :
        (again : ℕ → ℕ → R → LoopResult read) (fuel id cs seq sent b : ℕ) (bs : List ℕ)
        (q : Filled × R)
        → 1 ≤ cs
        → length (b ∷ bs) ≤ suc fuel
        → IsFilled cs (b ∷ bs) q
        → ((n t : ℕ) (s : R)
            → length (content s) ≤ fuel
            → IsStreamed (lifted (send_loop fuel id cs n t (content s))) (again n t s))
        → IsStreamed
            (lifted (send_loop (suc fuel) id cs seq sent (b ∷ bs)))
            (sent_by read again id seq sent q)
    unfolding send_loop
    round-IsStreamed again fuel id cs seq sent b bs (stuck, r) h l f i = elim f [ ]
    round-IsStreamed again fuel id cs seq sent b bs (failed e, r) h l (s, k, d) i =
        inr (e, s, k, d, refl)
    round-IsStreamed again fuel id zero seq sent b bs (filled xs, r) h l f i = absurd (omega arith)
    round-IsStreamed again fuel id (suc cs) seq sent b bs (filled [], r) h l f i = absurd (cc f.0)
    round-IsStreamed again fuel id (suc cs) seq sent b bs (filled (x ∷ xs), r) h l f i =
        let got = length-drop {0} cs bs in
        rw (send_loop-block fuel id (suc cs) seq sent b bs (x ∷ xs) (content r) f.0 f.1) (
          more-IsStreamed (seq == 2 ^ 32 - 1) (chunk_msg id seq (x ∷ xs)) _ _
            (i (seq + 1) ((sent + length (x ∷ xs)) % 2 ^ 64) r (rw f.1 (omega (arith, got)))))

    any-IsStreamed :
        (again : ℕ → ℕ → R → LoopResult read) (fuel id cs seq sent : ℕ) (before : List ℕ)
        (q : Filled × R)
        → 1 ≤ cs
        → length before ≤ suc fuel
        → IsFilled cs before q
        → ((n t : ℕ) (s : R)
            → length (content s) ≤ fuel
            → IsStreamed (lifted (send_loop fuel id cs n t (content s))) (again n t s))
        → IsStreamed
            (lifted (send_loop (suc fuel) id cs seq sent before))
            (sent_by read again id seq sent q)
    any-IsStreamed again fuel id cs seq sent [] q h l f i =
        end-IsStreamed again (suc fuel) id cs seq sent q f
    any-IsStreamed again fuel id cs seq sent (b ∷ bs) q h l f i =
        round-IsStreamed again fuel id cs seq sent b bs q h l f i

    -- The loop over a source, on enough fuel, does what the loop over its content does, or an error that
    -- a read gave ends it.
    pub stream_loop-send_loop :
        (fuel id cs seq sent : ℕ) (r : R)
        → 1 ≤ cs
        → length (content r) ≤ fuel
        → IsStreamed
            (lifted (send_loop fuel id cs seq sent (content r)))
            (stream_loop read fuel id cs seq sent r)
    unfolding stream_loop
    stream_loop-send_loop zero id cs seq sent r h l =
        let none_left = no_bytes (content r) l in
        let f = fill-IsFilled r cs in
        rw none_left (
          end-IsStreamed (λ q t s. ([], err endless)) 0 id cs seq sent (fill read r cs)
            (rw none_left at f))
    stream_loop-send_loop (suc fuel) id cs seq sent r h l =
        any-IsStreamed _ fuel id cs seq sent (content r) (fill read r cs) h l (fill-IsFilled r cs)
          (λ n t s k. stream_loop-send_loop fuel id cs n t s h k)
