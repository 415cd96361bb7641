-- ===== src/Core/Server/Rule.antt =====
-- How `handle` of crates/kvm-core/src/server.rs splits into cases, once for all invariants: `P` holds
-- of a machine at rest, `Q` of one whose cursor has just been moved, `R` of a result.
use self_kvm.Common.{[], true, false, ◌≡◌, refl, none, some, Bool-cases, Option-cases, inl, inr}
use self_kvm.Common.Int.{ℤ}
use self_kvm.Proto.Message.{Message, is_input}
use self_kvm.Core.Layout.{Crossing}
use self_kvm.Core.Events.{
  down, up, repeat, LocalEvent, motion_abs, motion_rel, button_event, key_event, wheel,
}
use self_kvm.Core.Server.{
  ServerMachine, Handled, is_remote, track_modifiers, stay, cross, crossing_of, try_cross,
  handle_local, handle_remote, handle, send_active,
}

-- Neither the cursor nor the modifiers decide whether the machine is remote.
pub is_remote-at :
    (m : ServerMachine) (x y : ℤ)
    → is_remote (record m { cursor_x = x; cursor_y = y }) ≡ is_remote m
unfolding is_remote
is_remote-at m x y = refl

pub is_remote-track :
    (m : ServerMachine) (ev : LocalEvent) → is_remote (track_modifiers m ev) ≡ is_remote m
unfolding is_remote track_modifiers
is_remote-track m (key_event id mask button action) = refl
is_remote-track m _ = refl

module _ {ℓ κ μ} (P : ServerMachine → Type ℓ) (Q : ServerMachine → Type κ) (R : Handled → Type μ)
    (track : (m : ServerMachine) (ev : LocalEvent) → P m → P (track_modifiers m ev))
    (moved : (m : ServerMachine) (x y : ℤ) → P m → Q (record m { cursor_x = x; cursor_y = y }))
    (stays : (m : ServerMachine) → Q m → crossing_of m ≡ none → R (stay m))
    (crosses : (m : ServerMachine) (c : Crossing) → Q m → crossing_of m ≡ some c → R (cross m c))
    (quiet : (m : ServerMachine) → P m → R (m, []))
    (sends : (m : ServerMachine) (msg : Message)
      → P m
      → is_remote m ≡ true
      → is_input msg ≡ true
      → R (m, send_active m msg)) where
  try_cross-rule : (m : ServerMachine) → Q m → R (try_cross m)
  unfolding try_cross
  try_cross-rule m q = elim (Option-cases (crossing_of m)) [
    | inl e ↦ rw e (stays m q e)
    | inr (c, e) ↦ rw e (crosses m c q e)
  ]

  handle_local-rule : (m : ServerMachine) (ev : LocalEvent) → P m → R (handle_local m ev)
  unfolding handle_local
  handle_local-rule m (motion_abs x y) p = try_cross-rule _ (moved m x y p)
  handle_local-rule m (motion_rel dx dy) p = try_cross-rule _ (moved m _ _ p)
  handle_local-rule m _ p = quiet m p

  handle_remote-rule :
      (m : ServerMachine) (ev : LocalEvent) → P m → is_remote m ≡ true → R (handle_remote m ev)
  unfolding handle_remote is_input
  handle_remote-rule m (motion_abs x y) p r = quiet m p
  handle_remote-rule m (motion_rel dx dy) p r = try_cross-rule _ (moved m _ _ p)
  handle_remote-rule m (button_event button true) p r = sends m _ p r refl
  handle_remote-rule m (button_event button false) p r = sends m _ p r refl
  handle_remote-rule m (wheel x y) p r = sends m _ p r refl
  handle_remote-rule m (key_event id mask button down) p r = sends m _ p r refl
  handle_remote-rule m (key_event id mask button up) p r = sends m _ p r refl
  handle_remote-rule m (key_event id mask button (repeat n)) p r = sends m _ p r refl

  pub handle-rule : (m : ServerMachine) (ev : LocalEvent) → P m → R (handle m ev)
  unfolding handle
  handle-rule m ev p =
      let m' = track_modifiers m ev in
      elim (Bool-cases (is_remote m')) [
        | inl e ↦ rw e (handle_remote-rule m' ev (track m ev p) e)
        | inr e ↦ rw e (handle_local-rule m' ev (track m ev p))
      ]
