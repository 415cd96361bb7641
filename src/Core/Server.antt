-- ===== src/Core/Server.antt =====
-- crates/kvm-core/src/server.rs: the machine that routes input. A method that changes the machine
-- returns the new one with the actions for the runtime, in order.
pub mod Rule
pub mod Grab
pub mod Bounds
pub mod Home
pub mod Routing
pub mod Push
pub mod Arrives
pub mod Held
pub mod Typed
pub mod Resize
use Prim.Native.Nat.{bit_and, bit_or}
use mathlib.Core.Option
use self_kvm.Common.{
  ℕ, ◌+◌, ◌-◌, ◌%◌, ◌^◌, List, [], ◌∷◌, ◌++◌, Bool, true, false, not, ◌||◌, Option, none, some,
  if◌then◌else◌, ◌==◌, ◌=l=◌,
}
use self_kvm.Common.Int.{ℤ, pos, ◌+ℤ◌, ◌/ℤ◌, ltb_ℤ, max_ℤ, as_i16, as_i32}
use self_kvm.Common.Map.{Name, modify}
use self_kvm.Proto.Keys.{KeyId, KeyModifierMask}
use self_kvm.Proto.Keys.Key
use self_kvm.Proto.Keys.Modifier
use self_kvm.Proto.Message.{
  Message, enter, leave, key_down, key_up, key_repeat, mouse_down, mouse_up, mouse_move,
  mouse_wheel,
}
use self_kvm.Core.Events.{
  KeyAction, down, up, repeat, LocalEvent, motion_abs, motion_rel, button_event, key_event, wheel,
}
use self_kvm.Core.Layout.{
  ScreenSize, screen_size, ScreenLayout, Crossing, size_of, detect_crossing, clamp_to, sub_i32,
}

pub data ServerAction : Type 0 where
  send : (screen : Name) (msg : Message) → ServerAction
  set_grab : Bool → ServerAction
  warp_cursor : (x y : ℤ) → ServerAction
  active_changed : (screen : Name) → ServerAction

pub record ServerMachine : Type 0 where
  pub layout : ScreenLayout
  pub local_screen : Name
  pub active : Name
  pub cursor_x : ℤ
  pub cursor_y : ℤ
  pub modifiers : KeyModifierMask
  pub seq : ℕ  -- u32
  pub switch_locked : Bool

abbrev pub Handled : Type 0
Handled = ServerMachine × List ServerAction

-- `(s.w / 2, s.h / 2)` of the screen, or the origin.
abbrev pub centre : Option ScreenSize → ℤ × ℤ
centre none = (pos 0, pos 0)
centre (some s) = (s.w /ℤ pos 2, s.h /ℤ pos 2)

unfoldable pub new : ScreenLayout → Name → ServerMachine
new layout local_screen =
    let c = centre (size_of layout local_screen) in
    record {
      layout = layout;
      local_screen = local_screen;
      active = local_screen;
      cursor_x = c.0;
      cursor_y = c.1;
      modifiers = 0;
      seq = 0;
      switch_locked = false;
    }

unfoldable pub set_lock : ServerMachine → Bool → ServerMachine
set_lock m locked = record m { switch_locked = locked }

unfoldable pub toggle_lock : ServerMachine → ServerMachine × Bool
toggle_lock m = (record m { switch_locked = not m.switch_locked }, not m.switch_locked)

unfoldable pub is_remote : ServerMachine → Bool
is_remote m = not (m.active =l= m.local_screen)

unfoldable pub set_layout : ServerMachine → ScreenLayout → ServerMachine
set_layout m layout = record m { layout = layout; active = m.local_screen }

unfoldable pub set_screen_size : ServerMachine → Name → ℤ → ℤ → ServerMachine
set_screen_size m screen w h = record m {
  layout = record (m.layout) {
    nodes = modify screen (λ n. record n { size = screen_size w h }) m.layout.nodes;
  };
}

unfoldable pub go_home : ServerMachine → Handled
unfolding is_remote
go_home m =
    let c = centre (size_of m.layout m.local_screen) in
    if not (is_remote m) then (m, []) else (
      record m { active = m.local_screen; cursor_x = c.0; cursor_y = c.1 },
      set_grab false ∷ warp_cursor c.0 c.1 ∷ active_changed m.local_screen ∷ [],
    )

unfoldable pub modifier_bit_for : KeyId → KeyModifierMask
modifier_bit_for id =
    if id == Key.shift_l || id == Key.shift_r
    then Modifier.shift
    else if id == Key.control_l || id == Key.control_r
    then Modifier.control
    else if id == Key.alt_l
    then Modifier.alt
    else if id == Key.alt_r
    then Modifier.alt_gr
    else if id == Key.super_l || id == Key.super_r
    then Modifier.super
    else if id == Key.meta_l || id == Key.meta_r
    then Modifier.meta
    else 0

-- `|= bit`, `&= !bit` or nothing.
abbrev pub fold_bit : KeyAction → KeyModifierMask → KeyModifierMask → KeyModifierMask
fold_bit down bit mask = bit_or mask bit
fold_bit up bit mask = bit_and mask (65535 - bit)
fold_bit (repeat count) bit mask = mask

unfoldable pub track_modifiers : ServerMachine → LocalEvent → ServerMachine
unfolding modifier_bit_for
track_modifiers m (key_event id mask button action) =
    let bit = modifier_bit_for id in
    record m { modifiers = if bit == 0 then mask else fold_bit action bit mask }
track_modifiers m _ = m

unfoldable pub send_active : ServerMachine → Message → List ServerAction
send_active m msg = send m.active msg ∷ []

-- `i32::clamp`, whose bounds are in order here.
abbrev pub clamp_std : ℤ → ℤ → ℤ → ℤ
clamp_std v lo hi = if ltb_ℤ v lo then lo else if ltb_ℤ hi v then hi else v

abbrev pub inset : ℤ
inset = pos 2

abbrev pub inset_in : Option ScreenSize → ℤ → ℤ → ℤ × ℤ
inset_in (some s) x y = (
  clamp_std x inset (max_ℤ (sub_i32 (sub_i32 s.w (pos 1)) inset) inset),
  clamp_std y inset (max_ℤ (sub_i32 (sub_i32 s.h (pos 1)) inset) inset),
)
inset_in none x y = (x, y)

unfoldable pub inset_to_local : ServerMachine → ℤ → ℤ → ℤ × ℤ
inset_to_local m x y = inset_in (size_of m.layout m.local_screen) x y

-- The branch of `try_cross` in which no edge is crossed.
unfoldable pub stay : ServerMachine → Handled
unfolding is_remote send_active
stay m =
    let p = clamp_to m.layout m.active m.cursor_x m.cursor_y in
    let m' = record m { cursor_x = p.0; cursor_y = p.1 } in
    if is_remote m then (m', send_active m' (mouse_move (as_i16 p.0) (as_i16 p.1))) else (m, [])

-- The branch in which the cursor crosses onto another screen.
unfoldable pub cross : ServerMachine → Crossing → Handled
unfolding inset_to_local
cross m c =
    let leaving_was_local = m.active =l= m.local_screen in
    let entering_local = c.to =l= m.local_screen in
    let entry =
      (if entering_local then inset_to_local m c.entry_x c.entry_y else (c.entry_x, c.entry_y)) in
    let left = (if leaving_was_local then [] else send m.active leave ∷ []) in
    let m' = record m { active = c.to; cursor_x = entry.0; cursor_y = entry.1 } in
    let seq' = (m.seq + 1) % 2 ^ 32 in
    if entering_local
    then (m', left ++ (set_grab false ∷ warp_cursor entry.0 entry.1 ∷ active_changed c.to ∷ []))
    else (
      record m' { seq = seq' },
      left
          ++ ((if leaving_was_local then set_grab true ∷ [] else [])
              ++ (send c.to (enter (as_i16 c.entry_x) (as_i16 c.entry_y) seq' m.modifiers)
                  ∷ active_changed c.to
                  ∷ [])),
    )

unfoldable pub crossing_of : ServerMachine → Option Crossing
unfolding is_remote
crossing_of m =
    let margin = (if is_remote m then pos 0 else pos 1) in
    if m.switch_locked then none else detect_crossing m.layout m.active m.cursor_x m.cursor_y margin

abbrev pub settle : ServerMachine → Option Crossing → Handled
settle m none = stay m
settle m (some c) = cross m c

unfoldable pub try_cross : ServerMachine → Handled
try_cross m = settle m (crossing_of m)

abbrev pub move_by : ServerMachine → ℤ → ℤ → ServerMachine
move_by m dx dy = record m {
  cursor_x = as_i32 (m.cursor_x +ℤ dx);
  cursor_y = as_i32 (m.cursor_y +ℤ dy);
}

unfoldable pub handle_local : ServerMachine → LocalEvent → Handled
handle_local m (motion_abs x y) = try_cross (record m { cursor_x = x; cursor_y = y })
handle_local m (motion_rel dx dy) = try_cross (move_by m dx dy)
handle_local m _ = (m, [])

abbrev pub key_message : KeyAction → ℕ → ℕ → ℕ → Message
key_message down id mask button = key_down id mask button
key_message up id mask button = key_up id mask button
key_message (repeat count) id mask button = key_repeat id mask count button

unfoldable pub handle_remote : ServerMachine → LocalEvent → Handled
unfolding send_active
handle_remote m (motion_rel dx dy) = try_cross (move_by m dx dy)
handle_remote m (motion_abs x y) = (m, [])
handle_remote m (button_event button pressed) =
    (m, send_active m (if pressed then mouse_down button else mouse_up button))
handle_remote m (wheel x y) = (m, send_active m (mouse_wheel x y))
handle_remote m (key_event id mask button action) =
    (m, send_active m (key_message action id mask button))

unfoldable pub handle : ServerMachine → LocalEvent → Handled
handle m ev =
    let m' = track_modifiers m ev in
    if is_remote m' then handle_remote m' ev else handle_local m' ev
