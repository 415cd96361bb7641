-- ===== src/Core/Events.antt =====
-- crates/kvm-core/src/events.rs: input as the capture layer, the machines and the injection share it.
use self_kvm.Common.{ℕ, Bool}
use self_kvm.Common.Int.{ℤ}
use self_kvm.Proto.Keys.{KeyId, KeyButton, KeyModifierMask}

pub data KeyAction : Type 0 where
  down up : KeyAction
  repeat : (count : ℕ) → KeyAction

pub data LocalEvent : Type 0 where
  motion_abs : (x y : ℤ) → LocalEvent
  motion_rel : (dx dy : ℤ) → LocalEvent
  button_event : (button : ℤ) (pressed : Bool) → LocalEvent
  key_event :
      (id : KeyId) (mask : KeyModifierMask) (button : KeyButton) (action : KeyAction) → LocalEvent
  wheel : (x y : ℤ) → LocalEvent

pub data InputCommand : Type 0 where
  mouse_move_abs : (x y : ℤ) → InputCommand
  mouse_move_rel : (dx dy : ℤ) → InputCommand
  mouse_button : (button : ℤ) (pressed : Bool) → InputCommand
  mouse_scroll : (x y : ℤ) → InputCommand
  key_command :
      (id : KeyId) (mask : KeyModifierMask) (button : KeyButton) (action : KeyAction) → InputCommand
