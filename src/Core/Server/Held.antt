-- ===== src/Core/Server/Held.antt =====
-- Keys that are held while the cursor moves in crates/kvm-core/src/server.rs.
use self_kvm.Common.{
  ℕ, List, [], Bool, true, false, ◌≡◌, refl, arith, All, Option, none, some, if◌then◌else◌,
}
use self_kvm.Common.Int.{ℤ}
use self_kvm.Proto.Message.{Message, key_down, key_up, key_repeat}
use self_kvm.Core.Layout.{Crossing}
use self_kvm.Core.Events.{KeyAction, motion_rel, key_event}
use self_kvm.Core.Server.{
  ServerMachine, ServerAction, send, is_remote, handle, handle_local, handle_remote,
  track_modifiers, try_cross, settle, stay, cross, send_active,
}

abbrev pub is_key : Message → Bool
is_key (key_down id mask button) = true
is_key (key_up id mask button) = true
is_key (key_repeat id mask count button) = true
is_key _ = false

-- An action that presses and releases no key.
abbrev pub IsKeyless : ServerAction → Type 0
IsKeyless (send screen msg) = is_key msg ≡ false
IsKeyless _ = Unit {0}

stay-IsKeyless : (m : ServerMachine) → All IsKeyless (stay m).1
unfolding stay send_active
stay-IsKeyless m = ground arith

cross-IsKeyless : (m : ServerMachine) (c : Crossing) → All IsKeyless (cross m c).1
unfolding cross
cross-IsKeyless m c = ground arith

settle-IsKeyless : (m : ServerMachine) (o : Option Crossing) → All IsKeyless (settle m o).1
settle-IsKeyless m none = stay-IsKeyless m
settle-IsKeyless m (some c) = cross-IsKeyless m c

if-IsKeyless :
    (b : Bool) (p q : ServerMachine × List ServerAction)
    → All IsKeyless p.1
    → All IsKeyless q.1
    → All IsKeyless (if b then p else q).1
if-IsKeyless true p q h k = h
if-IsKeyless false p q h k = k

motion-IsKeyless : (m : ServerMachine) (dx dy : ℤ) → All IsKeyless (handle m (motion_rel dx dy)).1
unfolding handle handle_local handle_remote try_cross
motion-IsKeyless m dx dy =
    if-IsKeyless (is_remote (track_modifiers m (motion_rel dx dy))) _ _ (settle-IsKeyless _ _)
      (settle-IsKeyless _ _)

key-local :
    (m : ServerMachine) (id mask button : ℕ) (action : KeyAction)
    → is_remote m ≡ false
    → (handle m (key_event id mask button action)).1 ≡ []
unfolding handle handle_local track_modifiers is_remote
key-local m id mask button action h = rw h refl

-- A motion that brings the cursor home releases no key on the screen that it leaves, and the release
-- that comes later is sent to nobody: a key that was pressed there stays down.
pub motion-releases_no_key :
    (m : ServerMachine) (dx dy : ℤ) (id mask button : ℕ) (action : KeyAction)
    → is_remote (handle m (motion_rel dx dy)).0 ≡ false
    → All IsKeyless (handle m (motion_rel dx dy)).1
      × ((handle (handle m (motion_rel dx dy)).0 (key_event id mask button action)).1 ≡ [])
motion-releases_no_key m dx dy id mask button action h =
    (motion-IsKeyless m dx dy, key-local (handle m (motion_rel dx dy)).0 id mask button action h)
