-- ===== src/Daemon/Client/Injection.antt =====
-- What the serve loop of crates/kvm-daemon/src/client.rs injects.
use self_kvm.Common.{
  List, [], ◌∷◌, ◌++◌, Bool, true, false, ◌&&◌, ◌||◌, ◌≡◌, refl, ap, ◌∙◌, arith, if◌then◌else◌,
}
use self_kvm.Proto.Utf8.{Text}
use self_kvm.Proto.Message.{
  Message, enter, close, err_incompatible, err_busy, err_unknown, err_bad, mouse_move,
  mouse_rel_move, mouse_down, mouse_up, mouse_wheel, key_down, key_up, key_repeat, clipboard_data,
}
use self_kvm.Net.Transport.{NetError, closed}
use self_kvm.Core.Events.{
  InputCommand, mouse_move_abs, mouse_move_rel, mouse_button, mouse_scroll, key_command, down, up,
  repeat,
}
use self_kvm.Core.Layout.{ScreenSize}
use self_kvm.Core.Client.{ClientMachine, handle, new, inject_if_active}
use self_kvm.Core.Client.Gate.{focus_of, is_ack, handle-state}
use self_kvm.Daemon.Client.{ClientEffect, injected, perform, clip_effect, serve, ended}

abbrev pub commands : List ClientEffect → List InputCommand
commands [] = []
commands (injected cmd ∷ es) = cmd ∷ commands es
commands (_ ∷ es) = commands es

-- The messages at which a client stops.
abbrev pub is_final : Message → Bool
is_final close = true
is_final (err_incompatible major minor) = true
is_final err_busy = true
is_final err_unknown = true
is_final err_bad = true
is_final _ = false

-- What a message asks for, if the cursor is on this screen and its geometry is acknowledged or not.
abbrev pub asks : Bool → Bool → Message → List InputCommand
asks on ack (enter x y seq modifiers) = mouse_move_abs x y ∷ []
asks on ack (mouse_move x y) = if on && ack then mouse_move_abs x y ∷ [] else []
asks on ack (mouse_rel_move dx dy) = if on && ack then mouse_move_rel dx dy ∷ [] else []
asks on ack (mouse_down button) = if on then mouse_button button true ∷ [] else []
asks on ack (mouse_up button) = if on then mouse_button button false ∷ [] else []
asks on ack (mouse_wheel x y) = if on then mouse_scroll x y ∷ [] else []
asks on ack (key_down id mask button) = if on then key_command id mask button down ∷ [] else []
asks on ack (key_up id mask button) = if on then key_command id mask button up ∷ [] else []
asks on ack (key_repeat id mask count button) =
    if on then key_command id mask button (repeat count) ∷ [] else []
asks on ack _ = []

-- What a whole conversation asks for.
abbrev pub asked : Bool → Bool → List Message → List InputCommand
asked on ack [] = []
asked on ack (m ∷ ms) =
    asks on ack m ++ (if is_final m then [] else asked (focus_of on m) (ack || is_ack m) ms)

commands-append : (es fs : List ClientEffect) → commands (es ++ fs) ≡ commands es ++ commands fs
commands-append [] fs = refl
commands-append (injected cmd ∷ es) fs =
    ap (λ (t : List InputCommand). cmd ∷ t) (commands-append es fs)
commands-append (_ ∷ es) fs = commands-append es fs

commands-clip_effect : (m : Message) → commands (clip_effect m) ≡ []
commands-clip_effect (clipboard_data id seq mark bytes) = refl
commands-clip_effect _ = refl

perform-handle :
    (c : ClientMachine) (m : Message)
    → (commands (perform (handle c m).1).0 ≡ asks c.entered c.acked m)
      × ((perform (handle c m).1).1 ≡ is_final m)
unfolding perform handle inject_if_active
perform-handle c m = ground arith

commands-ended : (e : NetError) → commands (ended e).0 ≡ []
commands-ended closed = refl
commands-ended _ = refl

commands-if :
    (b : Bool) (es : List ClientEffect)
    → commands (if b then [] else es) ≡ (if b then [] else commands es)
commands-if true es = refl
commands-if false es = refl

commands-three :
    (es fs : List ClientEffect) (b : Bool) (gs : List ClientEffect)
    → commands es ≡ []
    → commands (es ++ (fs ++ (if b then [] else gs)))
      ≡ commands fs ++ (if b then [] else commands gs)
commands-three es fs b gs h =
    commands-append es (fs ++ (if b then [] else gs))
    ∙ rw h (commands-append fs (if b then [] else gs) ∙ rw (commands-if b gs))

pub serve-asked :
    (c : ClientMachine) (ms : List Message) (end : NetError)
    → commands (serve c ms end).0 ≡ asked c.entered c.acked ms
unfolding serve
serve-asked c [] end = commands-ended end
serve-asked c (m ∷ ms) end =
    let r = handle c m in
    let (p, q) = perform-handle c m in
    let (e, a, n) = handle-state c m in
    commands-three (clip_effect m) (perform r.1).0 (perform r.1).1 (serve r.0 ms end).0
      (commands-clip_effect m)
    ∙ rw (p, q, serve-asked r.0 ms end, e, a)

-- The serve loop of a new client injects exactly what the conversation asks for, in order: what comes
-- before the first Close or error message, the entry point of every Enter, motion while the cursor is
-- on the screen and an InfoAck has come, and buttons, wheel and keys while the cursor is on the screen.
pub serve-injects :
    (name : Text) (screen : ScreenSize) (ms : List Message) (end : NetError)
    → commands (serve (new name screen) ms end).0 ≡ asked false false ms
unfolding new
serve-injects name screen ms end = serve-asked (new name screen) ms end
