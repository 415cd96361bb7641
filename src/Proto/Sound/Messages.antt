-- ===== src/Proto/Sound/Messages.antt =====
-- Whatever bytes are decoded by crates/kvm-proto/src/message.rs, the message fits its fields.
use self_kvm.Common.{
  ℕ, ◌≡◌, arith, List, not, ◌&&◌, ◌==◌, ◌=l=◌, ltb, leb, length, take, drop, ok, err, All,
  Bool-cases, inl, inr,
}
use self_kvm.Common.Int.{ℤ, IsByte, IsU16, IsU32, IsU64, IsI8, IsI16}
use self_kvm.Proto.Error.{ProtoResult, unknown_code}
use self_kvm.Proto.Code
use mathlib.Core.Path.{subst}
use self_kvm.Proto.Utf8.{Text}
use self_kvm.Proto.Message.{
  Message, Fits, FitsText, FitsBytes, hello_back, query_info, device_info, info_ack, reset_options,
  set_options, keep_alive, no_op, close, screen_saver, enter, leave, key_down, key_up, key_repeat,
  mouse_down, mouse_up, mouse_move, mouse_rel_move, mouse_wheel, clipboard_grab, clipboard_data,
  file_offer, file_chunk, file_end, file_accept, err_incompatible, err_busy, err_unknown, err_bad,
}
use self_kvm.Proto.Encode.{encode}
use self_kvm.Proto.Decode.{greeting, fields, message_of, decode}
use self_kvm.Proto.RoundTrip.{decode-encode}
use self_kvm.Proto.Reader.{
  Read, ◌>>=◌, return, new, is_empty, fixed, u8, i8, u16, i16, u32, u64, bytes, string, i32_vec,
}
use self_kvm.Proto.Sound.{
  IsRead, Reads, IsSlice, FitsVector, then-Reads, return-Reads, if-Reads, fail-Reads, All-drop,
  take_bytes-Reads, u8-Reads, i8-Reads, u16-Reads, i16-Reads, u32-Reads, u64-Reads, bytes-Reads,
  string-Reads, i32_vec-Reads,
}

via-u8 : (f : ℕ → Read Message) → ((x : ℕ) → IsByte x → Reads Fits (f x)) → Reads Fits (u8 >>= f)
via-u8 f = then-Reads IsByte Fits u8 f u8-Reads

via-i8 : (f : ℤ → Read Message) → ((x : ℤ) → IsI8 x → Reads Fits (f x)) → Reads Fits (i8 >>= f)
via-i8 f = then-Reads IsI8 Fits i8 f i8-Reads

via-u16 : (f : ℕ → Read Message) → ((x : ℕ) → IsU16 x → Reads Fits (f x)) → Reads Fits (u16 >>= f)
via-u16 f = then-Reads IsU16 Fits u16 f u16-Reads

via-i16 : (f : ℤ → Read Message) → ((x : ℤ) → IsI16 x → Reads Fits (f x)) → Reads Fits (i16 >>= f)
via-i16 f = then-Reads IsI16 Fits i16 f i16-Reads

via-u32 : (f : ℕ → Read Message) → ((x : ℕ) → IsU32 x → Reads Fits (f x)) → Reads Fits (u32 >>= f)
via-u32 f = then-Reads IsU32 Fits u32 f u32-Reads

via-u64 : (f : ℕ → Read Message) → ((x : ℕ) → IsU64 x → Reads Fits (f x)) → Reads Fits (u64 >>= f)
via-u64 f = then-Reads IsU64 Fits u64 f u64-Reads

via-bytes :
    (f : List ℕ → Read Message)
    → ((x : List ℕ) → FitsBytes x → Reads Fits (f x))
    → Reads Fits (bytes >>= f)
via-bytes f = then-Reads FitsBytes Fits bytes f bytes-Reads

via-string :
    (f : Text → Read Message)
    → ((x : Text) → FitsText x → Reads Fits (f x))
    → Reads Fits (string >>= f)
via-string f = then-Reads FitsText Fits string f string-Reads

via-vec :
    (f : List ℤ → Read Message)
    → ((x : List ℤ) → FitsVector x → Reads Fits (f x))
    → Reads Fits (i32_vec >>= f)
via-vec f = then-Reads FitsVector Fits i32_vec f i32_vec-Reads

done : (m : Message) → Fits m → Reads Fits (return m)
done m h = return-Reads Fits m h

fields-Reads : (c : List ℕ) → Reads Fits (fields c)
fields-Reads c = if-Reads Fits (c =l= Code.query_info) _ _ (done query_info tt) (
    if-Reads Fits (c =l= Code.device_info) _ _
      (via-i16 _ λ x0 h0. via-i16 _ λ x1 h1. via-i16 _ λ x2 h2. via-i16 _ λ x3 h3.
        via-i16 _ λ x4 h4. via-i16 _ λ x5 h5.
          via-i16 _ λ x6 h6. done (device_info x0 x1 x2 x3 x4 x5 x6) (h0, h1, h2, h3, h4, h5, h6))
      (if-Reads Fits (c =l= Code.info_ack) _ _ (done info_ack tt) (
        if-Reads Fits (c =l= Code.reset_options) _ _ (done reset_options tt) (
          if-Reads Fits (c =l= Code.set_options) _ _ (via-vec _ λ x0 h0. done (set_options x0) h0) (
            if-Reads Fits (c =l= Code.keep_alive) _ _ (done keep_alive tt) (
              if-Reads Fits (c =l= Code.no_op) _ _ (done no_op tt) (
                if-Reads Fits (c =l= Code.close) _ _ (done close tt) (
                  if-Reads Fits (c =l= Code.screen_saver) _ _
                    (via-u8 _ λ x0 h0. done (screen_saver (not (x0 == 0))) tt)
                    (if-Reads Fits (c =l= Code.enter) _ _
                      (via-i16 _ λ x0 h0. via-i16 _ λ x1 h1.
                        via-u32 _
                          λ x2 h2. via-u16 _ λ x3 h3. done (enter x0 x1 x2 x3) (h0, h1, h2, h3))
                      (if-Reads Fits (c =l= Code.leave) _ _ (done leave tt) (
                        if-Reads Fits (c =l= Code.key_down) _ _
                          (via-u16 _ λ x0 h0.
                            via-u16 _
                              λ x1 h1. via-u16 _ λ x2 h2. done (key_down x0 x1 x2) (h0, h1, h2))
                          (if-Reads Fits (c =l= Code.key_up) _ _
                            (via-u16 _ λ x0 h0.
                              via-u16 _
                                λ x1 h1. via-u16 _ λ x2 h2. done (key_up x0 x1 x2) (h0, h1, h2))
                            (if-Reads Fits (c =l= Code.key_repeat) _ _
                              (via-u16 _ λ x0 h0. via-u16 _ λ x1 h1. via-u16 _ λ x2 h2.
                                via-u16 _ λ x3 h3. done (key_repeat x0 x1 x2 x3) (h0, h1, h2, h3))
                              (if-Reads Fits (c =l= Code.mouse_down) _ _
                                (via-i8 _ λ x0 h0. done (mouse_down x0) h0)
                                (if-Reads Fits (c =l= Code.mouse_up) _ _
                                  (via-i8 _ λ x0 h0. done (mouse_up x0) h0)
                                  (if-Reads Fits (c =l= Code.mouse_move) _ _
                                    (via-i16 _
                                      λ x0 h0. via-i16 _ λ x1 h1. done (mouse_move x0 x1) (h0, h1))
                                    (if-Reads Fits (c =l= Code.mouse_rel_move) _ _
                                      (via-i16 _ λ x0 h0.
                                        via-i16 _ λ x1 h1. done (mouse_rel_move x0 x1) (h0, h1))
                                      (if-Reads Fits (c =l= Code.mouse_wheel) _ _
                                        (via-i16 _ λ x0 h0.
                                          via-i16 _ λ x1 h1. done (mouse_wheel x0 x1) (h0, h1))
                                        (if-Reads Fits (c =l= Code.clipboard_grab) _ _
                                          (via-i8 _ λ x0 h0.
                                            via-u32 _ λ x1 h1. done (clipboard_grab x0 x1) (h0, h1))
                                          (if-Reads Fits (c =l= Code.clipboard_data) _ _
                                            (via-i8 _ λ x0 h0. via-u32 _ λ x1 h1. via-i8 _ λ x2 h2.
                                              via-bytes _ λ x3 h3.
                                                done (clipboard_data x0 x1 x2 x3) (h0, h1, h2, h3))
                                            (if-Reads Fits (c =l= Code.file_offer) _ _
                                              (via-u32 _ λ x0 h0. via-string _ λ x1 h1.
                                                via-u64 _
                                                  λ x2 h2. done (file_offer x0 x1 x2) (h0, h1, h2))
                                              (if-Reads Fits (c =l= Code.file_chunk) _ _
                                                (via-u32 _ λ x0 h0. via-u32 _ λ x1 h1.
                                                  via-bytes _ λ x2 h2.
                                                    done (file_chunk x0 x1 x2) (h0, h1, h2))
                                                (if-Reads Fits (c =l= Code.file_end) _ _
                                                  (via-u32 _ λ x0 h0.
                                                    via-u32 _
                                                      λ x1 h1. done (file_end x0 x1) (h0, h1))
                                                  (if-Reads Fits (c =l= Code.file_accept) _ _
                                                    (via-u32 _ λ x0 h0. via-u8 _ λ x1 h1.
                                                      done (file_accept x0 (not (x1 == 0))) h0)
                                                    (if-Reads Fits (c =l= Code.err_incompatible) _ _
                                                      (via-i16 _ λ x0 h0. via-i16 _ λ x1 h1.
                                                        done (err_incompatible x0 x1) (h0, h1))
                                                      (if-Reads Fits (c =l= Code.err_busy) _ _
                                                        (done err_busy tt)
                                                        (if-Reads Fits (c =l= Code.err_unknown) _ _
                                                          (done err_unknown tt)
                                                          (if-Reads Fits (c =l= Code.err_bad) _ _
                                                            (done err_bad tt)
                                                            (fail-Reads Fits (
                                                            unknown_code
                                                            c))))))))))))))))))))))))))))))

fixed-Reads : (n : ℕ) → Reads (IsSlice n) (fixed n)
unfolding fixed
fixed-Reads n = take_bytes-Reads n

greeting-Reads : Reads Fits greeting
greeting-Reads = then-Reads (IsSlice 7) Fits (fixed 7) _ (fixed-Reads 7) λ _ _. via-i16 _ λ major h.
    via-i16 _ λ minor k. λ r b. elim (Bool-cases (is_empty r)) [
      | inl e ↦ rw e ((h, k), b)
      | inr e ↦ rw e (via-string _ (λ name l. done (hello_back major minor name) (h, k, l)) r b)
    ]

message_of-Fits :
    (x : ProtoResult (Message × List ℕ)) (m : Message)
    → IsRead Fits x
    → message_of x ≡ ok m
    → Fits m
message_of-Fits (ok (n, r)) m h e = subst Fits (ok-inj e) h.0
  where
    ok-inj : {a b : Message} → ◌≡◌ {A = ProtoResult Message} (ok a) (ok b) → a ≡ b
    ok-inj q = ground arith
message_of-Fits (err x) m h e = absurd (ground arith)

-- A message that is decoded from bytes fits its fields, so that it is decoded again from its own
-- encoding.
pub decode-Fits :
    (bs : List ℕ) (m : Message)
    → All IsByte bs
    → decode bs ≡ ok m
    → Fits m × (decode (encode m) ≡ ok m)
decode-Fits bs m h e = (fits, decode-encode m fits)
  where
    fits : Fits m
    fits =
        unfold decode new in
        elim (Bool-cases (leb 7 (length bs) && take 7 bs =l= Code.hello_magic)) [
          | inl p ↦ message_of-Fits (greeting bs) m (greeting-Reads bs h) (rw p at e)
          | inr p ↦ elim (Bool-cases (ltb (length bs) 4)) [
            | inl q ↦ absurd (ground arith)
            | inr q ↦
                message_of-Fits (fields (take 4 bs) (drop 4 bs)) m
                  (fields-Reads (take 4 bs) (drop 4 bs) (All-drop IsByte 4 bs h)) (rw (p, q) at e)
          ]
        ]
