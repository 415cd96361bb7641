-- ===== src/Daemon/Clipboard/Echo.antt =====
-- What the bridge of crates/kvm-daemon/src/clipboard.rs sends: what was copied on this machine.
use self_kvm.Common.{
  List, [], ◌∷◌, ◌++◌, Bool, true, false, not, ◌&&◌, ◌=l=◌, =l=_iff, ◌≡◌, refl, sym, ◌∙◌, arith,
  All, All-append, if◌then◌else◌, Result, ok, err, ◌⊎◌, inl, inr,
}
use self_kvm.Common.Map.{Name}
use self_kvm.Proto.Utf8.{Text}
use self_kvm.Daemon.Clipboard.{Bridge, spawn, apply, polled, round, is_empty}
use mathlib.Core.List.{Memᴰ}

-- What happens on the machine: its user copies a text, or the loop makes a round.
pub data Happening : Type 0 where
  copied : Text → Happening
  rounded : (texts : List Text) → Happening

abbrev pub copies : List Happening → List Text
copies [] = []
copies (copied t ∷ hs) = t ∷ copies hs
copies (rounded texts ∷ hs) = copies hs

module _ {Os : Type 0} (get_text : Os → Result Name Text)
    (set_text : Text → Os → Os × Result Name (Unit {0})) where
  -- A copy is a write that the bridge does not make.
  unfoldable pub happen : Bridge Os → List Happening → List Text
  unfolding round
  happen b [] = []
  happen b (copied t ∷ hs) = happen (record b { os = (set_text t b.os).0 }) hs
  happen b (rounded texts ∷ hs) = let r = round get_text set_text texts b in r.1 ++ happen r.0 hs

  -- What can be read is what the bridge knows, or among `cs`.
  abbrev IsKnown : List Text → Bridge Os → Type 0
  IsKnown cs b = (t : Text) → get_text b.os ≡ ok t → (t ≡ b.last) ⊎ Memᴰ t cs

  abbrev IsPolled : List Text → Bridge Os × List Text → Type 0
  IsPolled cs r = IsKnown cs r.0 × All (λ t. Memᴰ t cs) r.1

  spawn-IsKnown : (cs : List Text) (os : Os) → IsKnown cs (spawn get_text set_text os)
  unfolding spawn
  spawn-IsKnown cs os t e = inl (rw e refl)

  text_eq : (a b : Text) → ◌≡◌ {A = Result Name Text} (ok a) (ok b) → a ≡ b
  text_eq a b e = cc

  -- The `if` of a round, where it reads `cur`.
  changed-IsPolled :
      (cs : List Text) (b : Bridge Os) (cur : Text) (same empty : Bool)
      → (cur =l= b.last) ≡ same
      → get_text b.os ≡ ok cur
      → IsKnown cs b
      → IsPolled cs (if not same && not empty then (record b { last = cur }, cur ∷ []) else (b, []))
  changed-IsPolled cs b cur true empty q e h = (h, tt)
  changed-IsPolled cs b cur false true q e h = (h, tt)
  changed-IsPolled cs b cur false false q e h = (
    λ t r. inl (text_eq t cur (sym r ∙ e)),
    (elim (h cur e) [ inl same_text ↦ absurd (differs same_text q) | inr m ↦ m ], tt),
  )
    where
      differs : cur ≡ b.last → (cur =l= b.last) ≡ false → ⊥
      differs p r = ground (arith, =l=_iff cur b.last)

  polled-IsPolled :
      (cs : List Text) (b : Bridge Os) (r : Result Name Text)
      → get_text b.os ≡ r
      → IsKnown cs b
      → IsPolled cs (polled get_text set_text r b)
  polled-IsPolled cs b (err x) e h = (h, tt)
  polled-IsPolled cs b (ok cur) e h =
      changed-IsPolled cs b cur (cur =l= b.last) (is_empty cur) refl e h

  module _ (reads : (t : Text) (os : Os) → get_text (set_text t os).0 ≡ ok t) where
    apply-IsKnown :
        (cs texts : List Text) (b : Bridge Os)
        → IsKnown cs b
        → IsKnown cs (apply get_text set_text texts b)
    unfolding apply
    apply-IsKnown cs [] b h = h
    apply-IsKnown cs (x ∷ xs) b h =
        apply-IsKnown cs xs (record { last = x; os = (set_text x b.os).0 })
          (λ t e. inl (text_eq t x (sym e ∙ reads x b.os)))

    happen-known :
        (cs : List Text) (b : Bridge Os) (hs : List Happening)
        → All (λ t. Memᴰ t cs) (copies hs)
        → IsKnown cs b
        → All (λ t. Memᴰ t cs) (happen b hs)
    unfolding happen round
    happen-known cs b [] m h = tt
    happen-known cs b (copied t ∷ hs) m h =
        happen-known cs (record b { os = (set_text t b.os).0 }) hs m.1
          (λ u e. inr (rw (text_eq u t (sym e ∙ reads t b.os)) m.0))
    happen-known cs b (rounded texts ∷ hs) m h =
        let b' = apply get_text set_text texts b in
        let p = polled-IsPolled cs b' (get_text b'.os) refl (apply-IsKnown cs texts b h) in
        All-append _ (polled get_text set_text (get_text b'.os) b').1 _ p.1
          (happen-known cs (polled get_text set_text (get_text b'.os) b').0 hs m p.0)

    all_copied : (cs : List Text) → All (λ t. Memᴰ t cs) cs
    all_copied cs = within cs (λ t m. m)
      where
        within : (ds : List Text) → ((t : Text) → Memᴰ t ds → Memᴰ t cs) → All (λ t. Memᴰ t cs) ds
        within [] f = tt
        within (d ∷ ds) f = (f d (Memᴰ.head refl), within ds (λ t m. f t (Memᴰ.tail m)))

    -- From the start, whatever texts come from the other machines and whenever the loop makes its rounds,
    -- the bridge sends nothing but texts that were copied on this machine: what was pasted for a remote
    -- machine is not sent back, provided that a text that is written can be read, that is, that
    -- writes succeed.
    pub happen-copied :
        (os : Os) (hs : List Happening)
        → All (λ t. Memᴰ t (copies hs)) (happen (spawn get_text set_text os) hs)
    happen-copied os hs =
        happen-known (copies hs) (spawn get_text set_text os) hs (all_copied (copies hs))
          (spawn-IsKnown (copies hs) os)
