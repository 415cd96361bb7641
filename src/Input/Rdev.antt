-- ===== src/Input/Rdev.antt =====
-- crates/kvm-input/src/rdev_backend.rs: what the capture backend makes of the events of the system.
-- Floating point numbers and their casts are a parameter; locks, threads and the run loop are I/O.
use self_kvm.Common.{
  ℕ, List, [], ◌∷◌, Option, none, some, Bool, true, false, ◌||◌, not, if◌then◌else◌,
}
use self_kvm.Common.Int.{ℤ, pos, u8_as_i8, as_i16}
use self_kvm.Core.Events.{
  LocalEvent, motion_abs, motion_rel, button_event, key_event, wheel, KeyAction, down, up,
}
use self_kvm.Proto.Keys.{KeyId}
use self_kvm.Input.RdevKeys.{RKey, map_key}
use self_kvm.Input.Enigo.{is_zero}

-- `f64`: subtraction, and `as i32`.
pub record Float : Type 1 where
  pub F : Type 0
  pub sub : F → F → F
  pub to_i32 : F → ℤ

pub data RButton : Type 0 where
  left middle right : RButton
  unknown : (n : ℕ) → RButton

unfoldable pub map_button : RButton → ℤ
map_button left = pos 1
map_button middle = pos 2
map_button right = pos 3
map_button (unknown n) = u8_as_i8 n

module _ (f : Float) where
  abbrev pub Point : Type 0
  Point = f.F × f.F

  pub data EventType : Type 0 where
    mouse_move : (x y : f.F) → EventType
    button_press button_release : RButton → EventType
    wheel_turn : (delta_x delta_y : ℤ) → EventType
    key_press key_release : RKey → EventType

  -- What `translate` did: the last position, the events for the sink, and where it warped the cursor.
  pub record Translated : Type 0 where
    pub last_pos : Option Point
    pub sunk : List LocalEvent
    pub warped : Option Point

  abbrev pub delta : Option Point → f.F → f.F → Option (ℤ × ℤ)
  delta none x y = none
  delta (some p) x y = some (f.to_i32 (f.sub x p.0), f.to_i32 (f.sub y p.1))

  abbrev pub moved : Option (ℤ × ℤ) → List LocalEvent
  moved none = []
  moved (some d) = if not (is_zero d.0) || not (is_zero d.1) then motion_rel d.0 d.1 ∷ [] else []

  abbrev pub home_at : Option Point → f.F → f.F → Point
  home_at none x y = (x, y)
  home_at (some c) x y = c

  -- `if let Some(id) = map_key(k) { sink(..) }`
  abbrev pub key_events : KeyAction → Option KeyId → List LocalEvent
  key_events action none = []
  key_events action (some id) = key_event id 0 id action ∷ []

  unfoldable pub translate : Option Point → EventType → Bool → Option Point → Translated
  unfolding map_button
  translate center (mouse_move x y) true lp = record {
    last_pos = some (home_at center x y);
    sunk = moved (delta lp x y);
    warped = center;
  }
  translate center (mouse_move x y) false lp = record {
    last_pos = some (x, y);
    sunk = motion_abs (f.to_i32 x) (f.to_i32 y) ∷ [];
    warped = none;
  }
  translate center (button_press b) grabbing lp = record {
    last_pos = lp;
    sunk = button_event (map_button b) true ∷ [];
    warped = none;
  }
  translate center (button_release b) grabbing lp = record {
    last_pos = lp;
    sunk = button_event (map_button b) false ∷ [];
    warped = none;
  }
  translate center (wheel_turn x y) grabbing lp = record {
    last_pos = lp;
    sunk = wheel (as_i16 x) (as_i16 y) ∷ [];
    warped = none;
  }
  translate center (key_press k) grabbing lp = record {
    last_pos = lp;
    sunk = key_events down (map_key k);
    warped = none;
  }
  translate center (key_release k) grabbing lp = record {
    last_pos = lp;
    sunk = key_events up (map_key k);
    warped = none;
  }

  -- The grab callback: an event that is swallowed does not come back.
  unfoldable pub callback :
      Option Point → Bool → Option Point → EventType → Translated × Option EventType
  unfolding translate
  callback center grabbing lp ev =
      (translate center ev grabbing lp, if grabbing then none else some ev)

  -- A run of the grab loop: the switch as it is at each event.
  unfoldable pub capture :
      Option Point
      → Option Point
      → List (Bool × EventType)
      → List (List LocalEvent × Option EventType)
  unfolding callback
  capture center lp [] = []
  capture center lp ((grabbing, ev) ∷ evs) =
      let r = callback center grabbing lp ev in (r.0.sunk, r.1) ∷ capture center r.0.last_pos evs
