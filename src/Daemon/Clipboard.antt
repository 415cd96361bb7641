-- ===== src/Daemon/Clipboard.antt =====
-- crates/kvm-daemon/src/clipboard.rs: the loop of the bridge. The clipboard of the system is a
-- parameter: reading and writing a text, either of which may fail.
pub mod Echo
use self_kvm.Common.{
  List, [], ◌∷◌, ◌++◌, Option, none, some, Bool, true, false, not, ◌&&◌, ◌=l=◌, if◌then◌else◌,
  Result, ok, err,
}
use self_kvm.Common.Map.{Name}
use self_kvm.Proto.Utf8.{Text}

abbrev pub is_empty : Text → Bool
is_empty [] = true
is_empty (c ∷ s) = false

-- The loop: the text that it knows, and the system.
pub record Bridge (Os : Type 0) : Type 0 where
  pub last : Text
  pub os : Os

module _ {Os : Type 0} (get_text : Os → Result Name Text)
    (set_text : Text → Os → Os × Result Name (Unit {0})) where
  abbrev pub or_default : Result Name Text → Text
  or_default (ok t) = t
  or_default (err e) = []

  unfoldable pub spawn : Os → Bridge Os
  spawn os = record { last = or_default (get_text os); os = os }

  -- `while let Ok(text) = set_rx.try_recv()`: a failed write is not noticed.
  unfoldable pub apply : List Text → Bridge Os → Bridge Os
  apply [] b = b
  apply (text ∷ texts) b = apply texts (record { last = text; os = (set_text text b.os).0 })

  abbrev pub polled : Result Name Text → Bridge Os → Bridge Os × List Text
  polled (err e) b = (b, [])
  polled (ok cur) b =
      if not (cur =l= b.last) && not (is_empty cur)
      then (record b { last = cur }, cur ∷ [])
      else (b, [])

  -- One round: the texts that are waiting, and the changes that are sent.
  unfoldable pub round : List Text → Bridge Os → Bridge Os × List Text
  unfolding apply
  round texts b = let b' = apply texts b in polled (get_text b'.os) b'

  -- The sink of a client: every text is written.
  unfoldable pub sink : List Text → Os → Os
  sink [] os = os
  sink (text ∷ texts) os = sink texts (set_text text os).0
