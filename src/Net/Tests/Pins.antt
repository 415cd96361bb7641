-- ===== src/Net/Tests/Pins.antt =====
-- Pins of crates/kvm-net/src/tls.rs, with a digest of one byte and a disk that works.
use self_kvm.Common.{
  ℕ, ◌%◌, List, [], ◌∷◌, none, some, ◌≡◌, refl, ◌↔◌, arith, All, length, ok, =l=_iff,
}
use self_kvm.Common.Int.{IsByte}
use self_kvm.Common.Map.{lookup}
use self_kvm.Proto.Utf8.{Text}
use self_kvm.Net.Trust.{fingerprint}
use self_kvm.Net.TrustFile.{Disk, connect, connects, load}
use self_kvm.Net.TrustFile.Pinned.{pins_of, connects-pinned, filed, stale, filed-forgets}

abbrev pub save : Text → Disk → Disk
save t file = some t

abbrev pub digest : List ℕ → List ℕ
digest cert = (length cert % 256) ∷ []

pub digest_bytes : (c : List ℕ) → All IsByte (digest c)
digest_bytes c = (omega arith, tt)

abbrev pub studio : Text
studio = b's' ∷ b't' ∷ []

abbrev office : Text
office = b'o' ∷ b'f' ∷ []

abbrev cert : List ℕ
cert = 7 ∷ []

abbrev other : List ℕ
other = 7 ∷ 7 ∷ []

abbrev visits : List (Text × List ℕ)
visits = (office, other) ∷ (studio, other) ∷ []

connects-pinned_example :
    ((connect save digest
        (connects save digest (connect save digest none studio cert).0 visits)
        studio
        cert).1
      ≡ ok tt)
    ↔ (digest cert ≡ digest cert)
unfolding connect load
connects-pinned_example =
    connects-pinned save digest (λ t file. refl) digest_bytes none studio cert visits cert
      (refl, (refl, tt)) ((refl, (refl, tt)), ((refl, (refl, tt)), tt)) (tt, refl) refl

abbrev after_first : Disk
after_first = filed save digest (load none) studio cert

filed-forgets_example :
    (lookup studio (pins_of after_first) ≡ some (fingerprint digest cert))
    × (lookup studio (pins_of (filed save digest (stale none after_first) office other)) ≡ none)
unfolding load
filed-forgets_example =
    filed-forgets save digest (λ t file. refl) digest_bytes none studio office cert other
      (λ e. absurd (differ e)) (refl, (refl, tt)) (refl, (refl, tt)) refl refl (tt, refl)
  where
    differ : studio ≡ office → ⊥
    differ e = ground (arith, =l=_iff studio office)
