-- ===== src/Net/TrustFile/Saved.antt =====
-- What `load` of crates/kvm-net/src/tls.rs makes of a file that `persist` has written.
use self_kvm.Common.{
  [], ◌∷◌, ◌++◌, none, some, false, ◌≡◌, refl, sym, ap, ◌∙◌, arith, All, All-append, ◌==◌,
  append_assoc, append-nil,
}
use self_kvm.Common.Map.{Name, insert, lookup}
use self_kvm.Proto.Utf8.{Text}
use self_kvm.Net.Trust.{Pins}
use self_kvm.Net.Trust.Digest.{IsWord}
use self_kvm.Net.TrustFile.{
  trim_start, trim_end, trim, split_once, strip_return, lines_from, lines, load_lines, load, body,
}

-- A text without line ends.
abbrev IsLine : Text → Type 0
IsLine = All (λ c. ((c == 0x0A) ≡ false) × ((c == 0x0D) ≡ false))

IsWord-IsLine : (s : Text) → IsWord s → IsLine s
IsWord-IsLine [] h = tt
IsWord-IsLine (c ∷ s) h = (ground (arith, h.0), IsWord-IsLine s h.1)

trim_start-word : (s : Text) → IsWord s → trim_start s ≡ s
unfolding trim_start
trim_start-word [] h = refl
trim_start-word (c ∷ s) h = rw h.0 refl

trim_end-word : (s : Text) → IsWord s → trim_end s ≡ s
unfolding trim_end
trim_end-word [] h = refl
trim_end-word (c ∷ s) h = rw (h.0, trim_end-word s h.1) refl

trim-word : (s : Text) → IsWord s → trim s ≡ s
trim-word s h = rw (trim_start-word s h) (trim_end-word s h)

split_once-word : (k v : Text) → IsWord k → split_once (k ++ (0x20 ∷ v)) ≡ some (k, v)
unfolding split_once
split_once-word [] v h = refl
split_once-word (c ∷ k) v h = rw (h.0, split_once-word k v h.1) refl

strip_return-line : (s : Text) → IsLine s → strip_return s ≡ s
unfolding strip_return
strip_return-line [] h = refl
strip_return-line (c ∷ s) h = rw (h.0.1, strip_return-line s h.1) refl

lines_from-line :
    (cur w rest : Text)
    → IsLine w
    → lines_from cur (w ++ (0x0A ∷ rest)) ≡ strip_return (cur ++ w) ∷ lines_from [] rest
unfolding lines_from
lines_from-line cur [] rest h = rw (append-nil cur) refl
lines_from-line cur (c ∷ w) rest h =
    rw (h.0.0)
      (lines_from-line (cur ++ (c ∷ [])) w rest h.1 ∙ rw (append_assoc cur (c ∷ []) w) refl)

abbrev IsPair : Name × Text → Type 0
IsPair p = IsWord p.0 × IsWord p.1

-- What the lines of a file do, one after the other.
abbrev inserts : Pins → Pins → Pins
inserts [] m = m
inserts ((k, v) ∷ ps) m = inserts ps (insert k v m)

-- Pins that a file can hold: no white space, and one pin for each identity.
abbrev pub IsStored : Pins → Type 0
IsStored m = All IsPair m × (inserts m [] ≡ m)

words_joined : (k v : Text) → IsWord k → IsWord v → IsLine (k ++ (0x20 ∷ v))
words_joined k v hk hv =
    All-append _ k (0x20 ∷ v) (IsWord-IsLine k hk) ((refl, refl), IsWord-IsLine v hv)

lines-pair :
    (k v rest : Text)
    → IsWord k
    → IsWord v
    → lines (k ++ (0x20 ∷ v ++ (0x0A ∷ rest))) ≡ (k ++ (0x20 ∷ v)) ∷ lines rest
lines-pair k v rest hk hv =
    let h = words_joined k v hk hv in
    ap lines (sym (append_assoc k (0x20 ∷ v) (0x0A ∷ rest)))
    ∙ lines_from-line [] (k ++ (0x20 ∷ v)) rest h
    ∙ rw (strip_return-line (k ++ (0x20 ∷ v)) h)

load_lines-body : (ps m : Pins) → All IsPair ps → load_lines (lines (body ps)) m ≡ inserts ps m
unfolding load_lines body lines_from
load_lines-body [] m h = refl
load_lines-body ((k, v) ∷ ps) m h =
    rw
      (
        lines-pair k v (body ps) h.0.0 h.0.1,
        load_lines,
        split_once-word k v h.0.0,
        trim-word k h.0.0,
        trim-word v h.0.1,
      )
      (load_lines-body ps (insert k v m) h.1)

pub loaded-body : (m : Pins) → IsStored m → (load (some (body m))).mem ≡ m
unfolding load
loaded-body m h = load_lines-body m [] h.0 ∙ h.1

insert-none : (k v : Text) (m : Pins) → lookup k m ≡ none → insert k v m ≡ m ++ ((k, v) ∷ [])
insert-none k v [] h = refl
insert-none k v ((j, w) ∷ m) h = ground (arith, insert-none k v m)

inserts-append : (ps qs m : Pins) → inserts (ps ++ qs) m ≡ inserts qs (inserts ps m)
inserts-append [] qs m = refl
inserts-append ((k, v) ∷ ps) qs m = inserts-append ps qs (insert k v m)

-- A new pin keeps them so.
pub insert-IsStored :
    (k v : Text) (m : Pins)
    → IsWord k
    → IsWord v
    → lookup k m ≡ none
    → IsStored m
    → IsStored (insert k v m)
insert-IsStored k v m hk hv e h = rw (insert-none k v m e) (
  All-append _ m ((k, v) ∷ []) h.0 ((hk, hv), tt),
  inserts-append m ((k, v) ∷ []) [] ∙ ap (insert k v) h.1 ∙ insert-none k v m e,
)
