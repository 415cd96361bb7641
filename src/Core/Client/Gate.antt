-- ===== src/Core/Client/Gate.antt =====
-- What gates the injection of crates/kvm-core/src/client.rs.
use self_kvm.Common.{
  List, [], ◌∷◌, Bool, true, false, ◌&&◌, ◌||◌, ◌≡◌, ◌∙◌, arith, if◌then◌else◌, Option, none, some,
}
use self_kvm.Proto.Message.{
  Message, info_ack, enter, leave, key_down, key_up, key_repeat, mouse_down, mouse_up, mouse_move,
  mouse_rel_move, mouse_wheel,
}
use self_kvm.Core.Events.{
  down, up, repeat, InputCommand, mouse_move_abs, mouse_move_rel, mouse_button, mouse_scroll,
  key_command,
}
use self_kvm.Proto.Utf8.{Text}
use self_kvm.Core.Layout.{ScreenSize}
use self_kvm.Core.Client.{
  ClientMachine, ClientAction, inject, handle, handle_all, new, inject_if_active,
}

-- The command that an input message asks for.
abbrev pub command_of : Message → Option InputCommand
command_of (mouse_move x y) = some (mouse_move_abs x y)
command_of (mouse_rel_move dx dy) = some (mouse_move_rel dx dy)
command_of (mouse_down button) = some (mouse_button button true)
command_of (mouse_up button) = some (mouse_button button false)
command_of (mouse_wheel x y) = some (mouse_scroll x y)
command_of (key_down id mask button) = some (key_command id mask button down)
command_of (key_up id mask button) = some (key_command id mask button up)
command_of (key_repeat id mask count button) = some (key_command id mask button (repeat count))
command_of _ = none

-- Whether the cursor is on this screen behind a list of messages: the last Enter or Leave decides.
abbrev pub focus_of : Bool → Message → Bool
focus_of b (enter x y seq modifiers) = true
focus_of b leave = false
focus_of b _ = b

abbrev pub on_screen : Bool → List Message → Bool
on_screen b [] = b
on_screen b (m ∷ ms) = on_screen (focus_of b m) ms

-- Whether the geometry has been acknowledged: once is enough, and for good.
abbrev pub is_ack : Message → Bool
is_ack info_ack = true
is_ack _ = false

abbrev pub acknowledged : List Message → Bool
acknowledged [] = false
acknowledged (m ∷ ms) = is_ack m || acknowledged ms

pub handle-state :
    (c : ClientMachine) (m : Message)
    → ((handle c m).0.entered ≡ focus_of c.entered m)
      × ((handle c m).0.acked ≡ (c.acked || is_ack m))
      × ((handle c m).0.name ≡ c.name)
unfolding handle
handle-state c m = ground arith

pub handle_all-state :
    (c : ClientMachine) (ms : List Message)
    → ((handle_all c ms).entered ≡ on_screen c.entered ms)
      × ((handle_all c ms).acked ≡ (c.acked || acknowledged ms))
unfolding handle_all
handle_all-state c [] = ground arith
handle_all-state c (m ∷ ms) =
    let (e, a) = handle_all-state (handle c m).0 ms in
    let (e1, a1, n1) = handle-state c m in
    (rw e (rw e1), rw a (rw a1 (or_assoc c.acked (is_ack m) (acknowledged ms))))
  where
    or_assoc : (x y z : Bool) → ((x || y) || z) ≡ (x || (y || z))
    or_assoc x y z = ground arith

-- The gate as the protocol states it: motion waits for both, all other input for the cursor alone.
abbrev pub let_through : Bool → Bool → InputCommand → List ClientAction
let_through on ack (mouse_move_abs x y) = if on && ack then inject (mouse_move_abs x y) ∷ [] else []
let_through on ack (mouse_move_rel dx dy) =
    if on && ack then inject (mouse_move_rel dx dy) ∷ [] else []
let_through on ack cmd = if on then inject cmd ∷ [] else []

handle-input :
    (c : ClientMachine) (m : Message) (cmd : InputCommand)
    → command_of m ≡ some cmd
    → handle c m ≡ (c, let_through c.entered c.acked cmd)
unfolding handle inject_if_active
handle-input c m cmd h = ground arith

-- After any messages, an input message leaves a new client as it is and injects its command exactly
-- if the last Enter or Leave was an Enter and, where the command moves the cursor, an InfoAck has
-- come. Nothing else is asked for.
pub input-injects :
    (name : Text) (screen : ScreenSize) (ms : List Message) (m : Message) (cmd : InputCommand)
    → command_of m ≡ some cmd
    → handle (handle_all (new name screen) ms) m
      ≡ (handle_all (new name screen) ms, let_through (on_screen false ms) (acknowledged ms) cmd)
unfolding new
input-injects name screen ms m cmd h =
    let (e, a) = handle_all-state (new name screen) ms in
    handle-input (handle_all (new name screen) ms) m cmd h ∙ rw (e, a)
