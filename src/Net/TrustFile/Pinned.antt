-- ===== src/Net/TrustFile/Pinned.antt =====
-- Trust on first use over crates/kvm-net/src/tls.rs: connections one after the other, each with a store
-- that is loaded from the file, as crates/kvm-daemon/src/client.rs makes them.
use self_kvm.Common.{
  ℕ, List, [], ◌∷◌, none, some, ◌≡◌, refl, sym, ◌∙◌, ap, arith, All, ◌↔◌, ◌≢◌, inl, inr,
  Option-cases, ok, =l=_iff, =l=_refl,
}
use self_kvm.Common.Int.{IsByte}
use self_kvm.Common.Map.{lookup, lookup-insert, insert}
use self_kvm.Proto.Utf8.{Text}
use self_kvm.Net.Trust.{Pins, check, fingerprint, verdict}
use self_kvm.Net.Trust.Digest.{IsWord, fingerprint_inj, fingerprint-IsWord}
use self_kvm.Net.TrustFile.{Disk, FileTrustStore, load, connect, connects, file_check, body}
use self_kvm.Net.TrustFile.Saved.{IsStored, loaded-body, insert-IsStored}

-- What the file has pinned.
abbrev pub pins_of : Disk → Pins
pins_of file = (load file).mem

-- The file holds pins that it gives back.
abbrev pub IsSaved : Disk → Type 0
IsSaved file = IsStored (pins_of file)

-- A store that was loaded from `old`, while the file is `now`.
abbrev pub stale : Disk → Disk → FileTrustStore
stale old now = record (load old) { file = now }

module _ (write : Text → Disk → Disk) (sha256 : List ℕ → List ℕ) where
  -- The file behind a check of a certificate.
  unfoldable pub filed : FileTrustStore → Text → List ℕ → Disk
  unfolding file_check
  filed s identity c = (file_check write s identity (fingerprint sha256 c)).0.file

verdict-ok : (identity got known : Text) → verdict identity got (some known) ≡ ok tt → known ≡ got
verdict-ok identity got known h = ground (arith, =l=_iff known got)

verdict_same : (identity got known : Text) → known ≡ got → verdict identity got (some known) ≡ ok tt
verdict_same identity got known h = ground (arith, =l=_iff known got)

lookup-insert_self : (k v : Text) (m : Pins) → lookup k (insert k v m) ≡ some v
lookup-insert_self k v m = ground (arith, lookup-insert k k v m, =l=_refl k)

lookup-insert_absent :
    (i j v : Text) (m : Pins) → i ≢ j → lookup i m ≡ none → lookup i (insert j v m) ≡ none
lookup-insert_absent i j v m n h = ground (arith, lookup-insert j i v m, =l=_iff j i)

module _ (write : Text → Disk → Disk) (sha256 : List ℕ → List ℕ)
    (writes : (t : Text) (file : Disk) → write t file ≡ some t)
    (digests : (c : List ℕ) → All IsByte (sha256 c)) where
  -- A known identity changes nothing.
  connect-known :
      (file : Disk) (identity k : Text) (c : List ℕ)
      → lookup identity (pins_of file) ≡ some k
      → connect write sha256 file identity c
        ≡ (file, verdict identity (fingerprint sha256 c) (some k))
  unfolding connect file_check check load
  connect-known file identity k c e = rw e refl

  connect-new :
      (file : Disk) (identity : Text) (c : List ℕ)
      → lookup identity (pins_of file) ≡ none
      → connect write sha256 file identity c
        ≡ (some (body (insert identity (fingerprint sha256 c) (pins_of file))), ok tt)
  unfolding connect file_check check load
  connect-new file identity c e = rw (e, writes)

  -- The pins behind a first sight.
  module _ (file : Disk) (j : Text) (c : List ℕ) (hj : IsWord j)
      (e : lookup j (pins_of file) ≡ none) (h : IsSaved file) where
    abbrev grown : Pins
    grown = insert j (fingerprint sha256 c) (pins_of file)

    grown-IsStored : IsStored grown
    grown-IsStored =
        insert-IsStored j (fingerprint sha256 c) (pins_of file) hj
          (fingerprint-IsWord sha256 c (digests c)) e h

    connect-grown : pins_of (connect write sha256 file j c).0 ≡ grown
    connect-grown = rw (connect-new file j c e) (loaded-body grown grown-IsStored)

  lookup-insert_other :
      (identity k j v : Text) (m : Pins)
      → lookup j m ≡ none
      → lookup identity m ≡ some k
      → lookup identity (insert j v m) ≡ some k
  lookup-insert_other identity k j v m e h =
      ground (arith, lookup-insert j identity v m, =l=_iff j identity)

  abbrev pub Keeps : Text → Text → Disk → Type 0
  Keeps identity k file = IsSaved file × (lookup identity (pins_of file) ≡ some k)

  connect-Keeps :
      (file : Disk) (identity k j : Text) (c : List ℕ)
      → IsWord j
      → Keeps identity k file
      → Keeps identity k (connect write sha256 file j c).0
  connect-Keeps file identity k j c hj h = elim (Option-cases (lookup j (pins_of file))) [
    | inl e ↦ rw (connect-grown file j c hj e h.0) (
      grown-IsStored file j c hj e h.0,
      lookup-insert_other identity k j (fingerprint sha256 c) (pins_of file) e h.1,
    )
    | inr (v, e) ↦ rw (connect-known file j v c e) h
  ]

  connects-Keeps :
      (file : Disk) (identity k : Text) (cs : List (Text × List ℕ))
      → All (λ q. IsWord q.0) cs
      → Keeps identity k file
      → Keeps identity k (connects write sha256 file cs)
  unfolding connects
  connects-Keeps file identity k [] hw h = h
  connects-Keeps file identity k ((j, c) ∷ cs) hw h =
      connects-Keeps (connect write sha256 file j c).0 identity k cs hw.1
        (connect-Keeps file identity k j c hw.0 h)

  fingerprint-digest :
      {c d : List ℕ} → sha256 d ≡ sha256 c → fingerprint sha256 c ≡ fingerprint sha256 d
  unfolding fingerprint
  fingerprint-digest h = rw h refl

  -- A pin decides: exactly the certificates of the pinned digest are accepted.
  pub verdict-pinned :
      (file : Disk) (identity : Text) (c d : List ℕ)
      → lookup identity (pins_of file) ≡ some (fingerprint sha256 c)
      → ((connect write sha256 file identity d).1 ≡ ok tt) ↔ (sha256 d ≡ sha256 c)
  verdict-pinned file identity c d e =
      let k = connect-known file identity (fingerprint sha256 c) d e in
      (
        λ a. sym (
            fingerprint_inj sha256 c d (digests c) (digests d)
              (verdict-ok identity _ _ (rw k at a))),
        λ q. rw k (verdict_same identity _ _ (fingerprint-digest q)),
      )

  accepted-Keeps :
      (file : Disk) (identity : Text) (c : List ℕ)
      → IsWord identity
      → IsSaved file
      → (connect write sha256 file identity c).1 ≡ ok tt
      → Keeps identity (fingerprint sha256 c) (connect write sha256 file identity c).0
  accepted-Keeps file identity c hw h e = elim (Option-cases (lookup identity (pins_of file))) [
    | inl n ↦ rw (connect-grown file identity c hw n h) (
      grown-IsStored file identity c hw n h,
      lookup-insert_self identity (fingerprint sha256 c) (pins_of file),
    )
    | inr (v, n) ↦
        rw (connect-known file identity v c n)
          (h, n ∙ ap some (verdict-ok identity _ v (rw (connect-known file identity v c n) at e)))
  ]

  -- Once a certificate has been accepted for an identity, then whatever connections follow, each with a
  -- store loaded afresh, a certificate is accepted for that identity exactly if it has the digest of
  -- the first, provided that writes to the file succeed, identities have no white space and the pins
  -- in the file at the start are such that the file gives them back.
  pub connects-pinned :
      (file : Disk) (identity : Text) (c : List ℕ) (cs : List (Text × List ℕ)) (d : List ℕ)
      → IsWord identity
      → All (λ q. IsWord q.0) cs
      → IsSaved file
      → (connect write sha256 file identity c).1 ≡ ok tt
      → ((connect write sha256
            (connects write sha256 (connect write sha256 file identity c).0 cs)
            identity
            d).1
          ≡ ok tt)
        ↔ (sha256 d ≡ sha256 c)
  connects-pinned file identity c cs d hw hs h e =
      let k = accepted-Keeps file identity c hw h e in
      verdict-pinned _ identity c d (connects-Keeps _ identity _ cs hs k).1

  filed-new :
      (old now : Disk) (j : Text) (c : List ℕ)
      → lookup j (pins_of old) ≡ none
      → filed write sha256 (stale old now) j c
        ≡ some (body (insert j (fingerprint sha256 c) (pins_of old)))
  unfolding filed file_check check load
  filed-new old now j c e = rw (e, writes)

  pins-filed :
      (old now : Disk) (j : Text) (c : List ℕ)
      → IsWord j
      → lookup j (pins_of old) ≡ none
      → IsSaved old
      → pins_of (filed write sha256 (stale old now) j c)
        ≡ insert j (fingerprint sha256 c) (pins_of old)
  pins-filed old now j c hj e h =
      rw (filed-new old now j c e)
        (loaded-body (grown old j c hj e h) (grown-IsStored old j c hj e h))

  -- A store that was loaded before another one recorded a pin writes the file without that pin when it
  -- records its own: the first identity is pinned, and then unknown again, provided that writes
  -- succeed, the identities differ, were not pinned and have no white space, and the pins in the file
  -- at the start are such that the file gives them back.
  pub filed-forgets :
      (file : Disk) (i j : Text) (c d : List ℕ)
      → i ≢ j
      → IsWord i
      → IsWord j
      → lookup i (pins_of file) ≡ none
      → lookup j (pins_of file) ≡ none
      → IsSaved file
      → (lookup i (pins_of (filed write sha256 (load file) i c)) ≡ some (fingerprint sha256 c))
        × (lookup i
              (pins_of (filed write sha256 (stale file (filed write sha256 (load file) i c)) j d))
            ≡ none)
  unfolding load fingerprint
  filed-forgets file i j c d n hi hj ei ej h = (
    rw (pins-filed file file i c hi ei h)
        (lookup-insert_self i (fingerprint sha256 c) (pins_of file)),
    rw (pins-filed file (filed write sha256 (load file) i c) j d hj ej h)
        (lookup-insert_absent i j (fingerprint sha256 d) (pins_of file) n ei),
  )
