-- ===== src/Core/Client.antt =====
-- crates/kvm-core/src/client.rs: the machine that turns the server's messages into input.
pub mod Gate
use self_kvm.Common.{ℕ, List, [], ◌∷◌, Bool, true, false, not, ◌&&◌, ◌||◌, if◌then◌else◌}
use self_kvm.Common.Int.{ℤ, pos, ◌/ℤ◌, as_i16}
use self_kvm.Proto.Utf8.{Text}
use self_kvm.Proto.Message.{
  Message, hello, hello_back, query_info, device_info, info_ack, reset_options, set_options,
  keep_alive, no_op, close, screen_saver, enter, leave, key_down, key_up, key_repeat, mouse_down,
  mouse_up, mouse_move, mouse_rel_move, mouse_wheel, clipboard_grab, clipboard_data, file_offer,
  file_chunk, file_end, file_accept, err_incompatible, err_busy, err_unknown, err_bad,
  protocol_major, protocol_minor,
}
use self_kvm.Core.Events.{
  KeyAction, down, up, repeat, InputCommand, mouse_move_abs, mouse_move_rel, mouse_button,
  mouse_scroll, key_command,
}
use self_kvm.Core.Layout.{ScreenSize}

pub data DisconnectReason : Type 0 where
  server_closed : DisconnectReason
  incompatible_version : (major minor : ℤ) → DisconnectReason
  name_in_use : DisconnectReason
  unknown_to_server : DisconnectReason
  protocol_violation : DisconnectReason

pub data ClientAction : Type 0 where
  inject : InputCommand → ClientAction
  reply : Message → ClientAction
  connected entered_screen left_screen : ClientAction
  disconnect : DisconnectReason → ClientAction

pub record ClientMachine : Type 0 where
  pub name : Text
  pub screen : ScreenSize
  pub acked : Bool
  pub entered : Bool
  pub last_seq : ℕ  -- u32

unfoldable pub new : Text → ScreenSize → ClientMachine
new name screen = record {
  name = name;
  screen = screen;
  acked = false;
  entered = false;
  last_seq = 0;
}

abbrev pub gated : InputCommand → Bool
gated (mouse_move_abs x y) = true
gated (mouse_move_rel dx dy) = true
gated _ = false

unfoldable pub inject_if_active : ClientMachine → InputCommand → List ClientAction
inject_if_active c cmd = if c.entered && (c.acked || not (gated cmd)) then inject cmd ∷ [] else []

unfoldable pub handle : ClientMachine → Message → ClientMachine × List ClientAction
handle c (hello major minor) = (c, reply (hello_back protocol_major protocol_minor c.name) ∷ [])
handle c query_info = (
  c,
  reply (
        device_info (pos 0) (pos 0) (as_i16 c.screen.w) (as_i16 c.screen.h) (pos 0)
          (as_i16 (c.screen.w /ℤ pos 2)) (as_i16 (c.screen.h /ℤ pos 2)))
      ∷ [],
)
handle c info_ack = (record c { acked = true }, connected ∷ [])
handle c reset_options = (c, [])
handle c (set_options opts) = (c, [])
handle c keep_alive = (c, reply keep_alive ∷ [])
handle c no_op = (c, [])
handle c (enter x y seq modifiers) =
    (record c { entered = true; last_seq = seq }, entered_screen ∷ inject (mouse_move_abs x y) ∷ [])
handle c leave = (record c { entered = false }, left_screen ∷ [])
handle c (mouse_move x y) = (c, inject_if_active c (mouse_move_abs x y))
handle c (mouse_rel_move dx dy) = (c, inject_if_active c (mouse_move_rel dx dy))
handle c (mouse_down button) = (c, inject_if_active c (mouse_button button true))
handle c (mouse_up button) = (c, inject_if_active c (mouse_button button false))
handle c (mouse_wheel x y) = (c, inject_if_active c (mouse_scroll x y))
handle c (key_down id mask button) = (c, inject_if_active c (key_command id mask button down))
handle c (key_up id mask button) = (c, inject_if_active c (key_command id mask button up))
handle c (key_repeat id mask count button) =
    (c, inject_if_active c (key_command id mask button (repeat count)))
handle c close = (c, disconnect server_closed ∷ [])
handle c (err_incompatible major minor) = (c, disconnect (incompatible_version major minor) ∷ [])
handle c err_busy = (c, disconnect name_in_use ∷ [])
handle c err_unknown = (c, disconnect unknown_to_server ∷ [])
handle c err_bad = (c, disconnect protocol_violation ∷ [])
handle c _ = (c, [])

-- The machine after a list of messages.
unfoldable pub handle_all : ClientMachine → List Message → ClientMachine
unfolding handle
handle_all c [] = c
handle_all c (m ∷ ms) = handle_all (handle c m).0 ms
