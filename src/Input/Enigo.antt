-- ===== src/Input/Enigo.antt =====
-- crates/kvm-input/src/enigo_backend.rs: how the injection backend drives the system.
use self_kvm.Common.{
  ℕ, ◌+◌, ◌-◌, List, [], ◌∷◌, Option, none, some, Bool, false, ◌&&◌, ◌||◌, leb, ◌==◌, if◌then◌else◌,
  Result, ok, err,
}
use self_kvm.Common.Int.{ℤ, pos, negsuc, ◌/ℤ◌, ◌-ℤ◌}
use self_kvm.Common.Map.{Name}
use self_kvm.Core.Events.{
  InputCommand, mouse_move_abs, mouse_move_rel, mouse_button, mouse_scroll, key_command, KeyAction,
  down, up, repeat,
}
use self_kvm.Proto.Keys.{KeyId, is_printable}
use self_kvm.Proto.Keys.Key as K
use mathlib.Core.Option

-- The names that the source uses of the input library.
pub data Key : Type 0 where
  unicode : (c : ℕ) → Key
  backspace tab return escape delete home end page_up page_down : Key
  left_arrow right_arrow up_arrow down_arrow shift control alt meta caps_lock : Key
  f1 f2 f3 f4 f5 f6 f7 f8 f9 f10 f11 f12 : Key

pub data Button : Type 0 where
  left middle right back forward : Button

pub data Direction : Type 0 where
  press release : Direction

pub data Coordinate : Type 0 where
  absolute relative : Coordinate

pub data Axis : Type 0 where
  vertical horizontal : Axis

-- A call of the input library.
pub data Call : Type 0 where
  move_mouse : (x y : ℤ) → Coordinate → Call
  button : Button → Direction → Call
  scroll : (lines : ℤ) → Axis → Call
  key : Key → Direction → Call

unfoldable pub map_button : ℤ → Button
map_button (pos n) =
    if n == 1
    then left
    else if n == 2
    then middle
    else if n == 3
    then right
    else if n == 4
    then back
    else if n == 5
    then forward
    else left
map_button (negsuc n) = left

abbrev pub signum : ℤ → ℤ
signum (pos n) = if n == 0 then pos 0 else pos 1
signum (negsuc n) = negsuc 0

abbrev pub is_zero : ℤ → Bool
is_zero (pos n) = n == 0
is_zero (negsuc n) = false

abbrev pub negate : ℤ → ℤ
negate z = pos 0 -ℤ z

-- The cast to i32 keeps the delta, and the quotient by 120 is far from overflow.
unfoldable pub wheel_lines : ℤ → ℤ
wheel_lines delta =
    if is_zero (delta /ℤ pos 120) then negate (signum delta) else negate (delta /ℤ pos 120)

unfoldable pub f_key : KeyId → Option Key
f_key n =
    if n == 1
    then some f1
    else if n == 2
    then some f2
    else if n == 3
    then some f3
    else if n == 4
    then some f4
    else if n == 5
    then some f5
    else if n == 6
    then some f6
    else if n == 7
    then some f7
    else if n == 8
    then some f8
    else if n == 9
    then some f9
    else if n == 10
    then some f10
    else if n == 11
    then some f11
    else if n == 12
    then some f12
    else none

-- `char::from_u32` fails on the surrogates, the only u16s that are no characters.
abbrev pub from_u32 : ℕ → Option ℕ
from_u32 c = if leb 0xD800 c && leb c 0xDFFF then none else some c

-- The arms of the match, in their order.
unfoldable pub special_key : KeyId → Option Key
unfolding K.f f_key
special_key id =
    if id == K.backspace
    then some backspace
    else if id == K.tab
    then some tab
    else if id == K.return_key
    then some return
    else if id == K.escape
    then some escape
    else if id == K.delete
    then some delete
    else if id == K.home
    then some home
    else if id == K.end
    then some end
    else if id == K.page_up
    then some page_up
    else if id == K.page_down
    then some page_down
    else if id == K.left
    then some left_arrow
    else if id == K.right
    then some right_arrow
    else if id == K.up
    then some up_arrow
    else if id == K.down
    then some down_arrow
    else if id == K.shift_l || id == K.shift_r
    then some shift
    else if id == K.control_l || id == K.control_r
    then some control
    else if id == K.alt_l || id == K.alt_r
    then some alt
    else if id == K.super_l || id == K.super_r || id == K.meta_l || id == K.meta_r
    then some meta
    else if id == K.caps_lock
    then some caps_lock
    else if leb K.f1 id && leb id (K.f 12)
    then f_key (id - K.f1 + 1)
    else none

unfoldable pub map_key : KeyId → Option Key
unfolding special_key is_printable
map_key id = if is_printable id then Option.map unicode (from_u32 id) else special_key id

abbrev pub direction : Bool → Direction
direction pressed = if pressed then press else release

abbrev pub key_direction : KeyAction → Direction
key_direction down = press
key_direction (repeat count) = press
key_direction up = release

abbrev pub Answer : Type 0
Answer = Result Name (Unit {0})

-- The input library: a call changes the system and succeeds or fails.
module _ {Os : Type 0} (call : Call → Os → Os × Answer) where
  -- `first?; second`
  abbrev pub then_call : Os × Answer → (Os → Os × Answer) → Os × Answer
  then_call (s, ok u) second = second s
  then_call (s, err e) second = (s, err e)

  abbrev pub scroll_unless_zero : ℤ → Axis → Os → Os × Answer
  scroll_unless_zero d axis s =
      if is_zero d then (s, ok tt) else call (scroll (wheel_lines d) axis) s

  abbrev pub key_call : Option Key → Direction → Os → Os × Answer
  key_call (some k) d s = call (key k d) s
  key_call none d s = (s, ok tt)

  -- The injector's `inject`; a key that has no counterpart is skipped.
  unfoldable pub inject : InputCommand → Os → Os × Answer
  unfolding map_button map_key wheel_lines
  inject (mouse_move_abs x y) s = call (move_mouse x y absolute) s
  inject (mouse_move_rel dx dy) s = call (move_mouse dx dy relative) s
  inject (mouse_button b pressed) s = call (button (map_button b) (direction pressed)) s
  inject (mouse_scroll x y) s =
      then_call (scroll_unless_zero y vertical s) (scroll_unless_zero x horizontal)
  inject (key_command id mask b action) s = key_call (map_key id) (key_direction action) s

  -- The commands of a conversation, one by one: a failed one is only logged.
  unfoldable pub inject_all : List InputCommand → Os → Os
  unfolding inject
  inject_all [] s = s
  inject_all (cmd ∷ cmds) s = inject_all cmds (inject cmd s).0
