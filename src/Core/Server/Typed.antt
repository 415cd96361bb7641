-- ===== src/Core/Server/Typed.antt =====
-- The widths of what crates/kvm-core/src/server.rs sends: a field of a message is an integer of the
-- width that the wire has for it.
use self_kvm.Common.{
  length, ◌≤◌, ℕ, ◌+◌, ◌-◌, ◌%◌, ◌^◌, List, [], ◌∷◌, Bool, true, false, ◌≡◌, arith, All, Option,
  none, some, if◌then◌else◌, ok,
}
use self_kvm.Common.Bits.{bit_or_bound, bit_and_bound}
use self_kvm.Common.Int.{ℤ, IsI8, IsI16, IsU16, IsU32, as_i16, as_i16-IsI16}
use self_kvm.Proto.Message.{Message, Fits, enter, mouse_down, mouse_up}
use self_kvm.Proto.Encode.{encode}
use self_kvm.Proto.Decode.{decode}
use self_kvm.Proto.RoundTrip.{decode-encode}
use self_kvm.Core.Layout.{Crossing, ScreenLayout}
use self_kvm.Common.Map.{Name}
use self_kvm.Core.Events.{
  KeyAction, down, up, repeat, LocalEvent, motion_abs, motion_rel, button_event, key_event, wheel,
}
use self_kvm.Core.Server.{
  ServerMachine, ServerAction, send, new, is_remote, handle, handle_local, handle_remote,
  modifier_bit_for, fold_bit, track_modifiers, try_cross, settle, stay, cross, send_active, Handled,
  key_message, set_grab, warp_cursor, active_changed,
}
use self_kvm.Core.Session.{server_run}

-- The types that the fields have in the source.
abbrev pub IsAction : KeyAction → Type 0
IsAction (repeat count) = IsU16 count
IsAction _ = Unit {0}

abbrev pub IsEvent : LocalEvent → Type 0
IsEvent (button_event button pressed) = IsI8 button
IsEvent (key_event id mask button action) = IsU16 id × IsU16 mask × IsU16 button × IsAction action
IsEvent (wheel x y) = IsI16 x × IsI16 y
IsEvent _ = Unit {0}

abbrev pub IsTyped : ServerMachine → Type 0
IsTyped m = IsU16 m.modifiers × IsU32 m.seq

-- A message with fields of the widths of the wire, and of 32 bytes at most.
abbrev pub IsShort : Message → Type 0
IsShort msg = Fits msg × (length (encode msg) ≤ 32)

abbrev pub IsSendable : ServerAction → Type 0
IsSendable (send screen msg) = IsShort msg
IsSendable _ = Unit {0}

-- A typed machine with messages that fit.
abbrev pub Typed : Handled → Type 0
Typed r = IsTyped r.0 × All IsSendable r.1

modifier_bit_for-IsU16 : (id : ℕ) → IsU16 (modifier_bit_for id)
unfolding modifier_bit_for
modifier_bit_for-IsU16 id = ground arith

fold_bit-IsU16 :
    (action : KeyAction) (bit mask : ℕ) → IsU16 bit → IsU16 mask → IsU16 (fold_bit action bit mask)
fold_bit-IsU16 down bit mask p q = bit_or_bound 16 mask bit q p
fold_bit-IsU16 up bit mask p q = omega (arith, bit_and_bound mask (65535 - bit))
fold_bit-IsU16 (repeat count) bit mask p q = q

if-IsU16 : (b : Bool) (x y : ℕ) → IsU16 x → IsU16 y → IsU16 (if b then x else y)
if-IsU16 true x y p q = p
if-IsU16 false x y p q = q

track_modifiers-IsTyped :
    (m : ServerMachine) (ev : LocalEvent) → IsTyped m → IsEvent ev → IsTyped (track_modifiers m ev)
unfolding track_modifiers
track_modifiers-IsTyped m (key_event id mask button action) h e = (
  if-IsU16 _ mask _ e.1
      (fold_bit-IsU16 action (modifier_bit_for id) mask (modifier_bit_for-IsU16 id) e.1),
  h.1,
)
track_modifiers-IsTyped m (motion_abs x y) h e = h
track_modifiers-IsTyped m (motion_rel dx dy) h e = h
track_modifiers-IsTyped m (button_event button pressed) h e = h
track_modifiers-IsTyped m (wheel x y) h e = h

if-Typed : (b : Bool) (p q : Handled) → Typed p → Typed q → Typed (if b then p else q)
if-Typed true p q h k = h
if-Typed false p q h k = k

stay-Typed : (m : ServerMachine) → IsTyped m → Typed (stay m)
unfolding stay send_active encode
stay-Typed m h =
    if-Typed (is_remote m) _ _ (h, (((as_i16-IsI16 _, as_i16-IsI16 _), omega arith), tt)) (h, tt)

cross-Typed : (m : ServerMachine) (c : Crossing) → IsTyped m → Typed (cross m c)
unfolding cross encode
cross-Typed m c h =
    let q : IsU32 ((m.seq + 1) % 2 ^ 32) = omega arith in
    let e : IsShort
        (enter (as_i16 c.entry_x) (as_i16 c.entry_y) ((m.seq + 1) % 2 ^ 32) m.modifiers) =
      ((as_i16-IsI16 c.entry_x, as_i16-IsI16 c.entry_y, q, h.0), omega arith) in
    ground arith

settle-Typed : (m : ServerMachine) (o : Option Crossing) → IsTyped m → Typed (settle m o)
settle-Typed m none h = stay-Typed m h
settle-Typed m (some c) h = cross-Typed m c h

button-Typed :
    (m : ServerMachine) (button : ℤ) (pressed : Bool)
    → IsTyped m
    → IsI8 button
    → Typed (m, send_active m (if pressed then mouse_down button else mouse_up button))
unfolding send_active encode
button-Typed m button true h e = (h, ((e, omega arith), tt))
button-Typed m button false h e = (h, ((e, omega arith), tt))

key-Typed :
    (m : ServerMachine) (id mask button : ℕ) (action : KeyAction)
    → IsTyped m
    → IsEvent (key_event id mask button action)
    → Typed (m, send_active m (key_message action id mask button))
unfolding send_active encode
key-Typed m id mask button down h e = (h, (((e.0, e.1, e.2), omega arith), tt))
key-Typed m id mask button up h e = (h, (((e.0, e.1, e.2), omega arith), tt))
key-Typed m id mask button (repeat count) h e = (h, (((e.0, e.1, e.3, e.2), omega arith), tt))

handle_remote-Typed :
    (m : ServerMachine) (ev : LocalEvent) → IsTyped m → IsEvent ev → Typed (handle_remote m ev)
unfolding handle_remote try_cross send_active encode
handle_remote-Typed m (motion_rel dx dy) h e = settle-Typed _ _ h
handle_remote-Typed m (motion_abs x y) h e = (h, tt)
handle_remote-Typed m (button_event button pressed) h e = button-Typed m button pressed h e
handle_remote-Typed m (wheel x y) h e = (h, ((e, omega arith), tt))
handle_remote-Typed m (key_event id mask button action) h e = key-Typed m id mask button action h e

handle_local-Typed :
    (m : ServerMachine) (ev : LocalEvent) → IsTyped m → IsEvent ev → Typed (handle_local m ev)
unfolding handle_local try_cross
handle_local-Typed m (motion_abs x y) h e = settle-Typed _ _ h
handle_local-Typed m (motion_rel dx dy) h e = settle-Typed _ _ h
handle_local-Typed m (button_event button pressed) h e = (h, tt)
handle_local-Typed m (wheel x y) h e = (h, tt)
handle_local-Typed m (key_event id mask button action) h e = (h, tt)

pub handle-Typed :
    (m : ServerMachine) (ev : LocalEvent) → IsTyped m → IsEvent ev → Typed (handle m ev)
unfolding handle
handle-Typed m ev h e =
    let t = track_modifiers-IsTyped m ev h e in
    if-Typed (is_remote (track_modifiers m ev)) _ _ (handle_remote-Typed _ ev t e)
      (handle_local-Typed _ ev t e)

server_run-IsTyped :
    (m : ServerMachine) (evs : List LocalEvent)
    → IsTyped m
    → All IsEvent evs
    → IsTyped (server_run m evs)
unfolding server_run
server_run-IsTyped m [] h es = h
server_run-IsTyped m (ev ∷ evs) h es =
    server_run-IsTyped (handle m ev).0 evs (handle-Typed m ev h es.0).0 es.1

-- A message that a peer decodes to itself.
abbrev pub IsReadable : ServerAction → Type 0
IsReadable (send screen msg) = decode (encode msg) ≡ ok msg
IsReadable _ = Unit {0}

decode-IsReadable : (as' : List ServerAction) → All IsSendable as' → All IsReadable as'
decode-IsReadable [] h = tt
decode-IsReadable (send screen msg ∷ as') h = (decode-encode msg h.0.0, decode-IsReadable as' h.1)
decode-IsReadable (set_grab on ∷ as') h = (tt, decode-IsReadable as' h.1)
decode-IsReadable (warp_cursor x y ∷ as') h = (tt, decode-IsReadable as' h.1)
decode-IsReadable (active_changed screen ∷ as') h = (tt, decode-IsReadable as' h.1)

pub new-IsTyped : (layout : ScreenLayout) (local_screen : Name) → IsTyped (new layout local_screen)
unfolding new
new-IsTyped layout local_screen = (omega arith, omega arith)

-- From a new machine, whatever events of the source's types are captured, each message that the next
-- one sends has fields of the widths of the wire and at most 32 bytes, and the peer decodes it to itself.
pub run-IsReadable :
    (layout : ScreenLayout) (local_screen : Name) (evs : List LocalEvent) (ev : LocalEvent)
    → All IsEvent evs
    → IsEvent ev
    → All IsSendable (handle (server_run (new layout local_screen) evs) ev).1
      × All IsReadable (handle (server_run (new layout local_screen) evs) ev).1
run-IsReadable layout local_screen evs ev es e =
    let s = server_run-IsTyped (new layout local_screen) evs (new-IsTyped layout local_screen) es in
    let t = (handle-Typed _ ev s e).1 in (t, decode-IsReadable _ t)
