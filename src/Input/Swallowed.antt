-- ===== src/Input/Swallowed.antt =====
-- What the grab loop of crates/kvm-input/src/rdev_backend.rs lets through and reports.
use self_kvm.Common.{
  List, [], ◌∷◌, Option, none, some, Bool, true, false, ◌≡◌, refl, arith, ◌⊎◌, ap, sym,
  if◌then◌else◌,
}
use mathlib.Core.Path.{subst}
use self_kvm.Common.Int.{ℤ, pos, as_i16}
use self_kvm.Core.Events.{
  LocalEvent, motion_abs, motion_rel, button_event, key_event, wheel, KeyAction,
}
use self_kvm.Proto.Keys.{KeyId}
use self_kvm.Input.RdevKeys.{map_key}
use self_kvm.Input.Rdev.{
  Float, EventType, mouse_move, button_press, button_release, wheel_turn, key_press, key_release,
  Point, callback, capture, translate, moved, home_at, key_events, map_button,
}

abbrev pub or_here {ℓ} : {A : Type ℓ} → Option A → A → A
or_here none x = x
or_here (some c) x = c

-- A key is reported if it has an id.
abbrev pub IsKeyOf : KeyAction → Option KeyId → List LocalEvent → Type 0
IsKeyOf a none s = s ≡ []
IsKeyOf a (some id) s = s ≡ key_event id 0 id a ∷ []

module _ (f : Float) (center : Option (Point f)) where
  -- Where the cursor has been left by the events so far, the last one first: a grabbed motion is undone
  -- by the warp to the centre, where there is one.
  abbrev pub left_at : List (Bool × EventType f) → Option (Point f)
  left_at [] = none
  left_at ((false, mouse_move x y) ∷ past) = some (x, y)
  left_at ((true, mouse_move x y) ∷ past) = some (or_here center (x, y))
  left_at (_ ∷ past) = left_at past

  -- How far a motion goes from there.
  abbrev pub IsStill : ℤ × ℤ → Type 0
  IsStill d = (d.0 ≡ pos 0) × (d.1 ≡ pos 0)

  abbrev pub IsStep : ℤ × ℤ → List LocalEvent → Type 0
  IsStep d s = (IsStill d × (s ≡ [])) ⊎ ((¬ IsStill d) × (s ≡ motion_rel d.0 d.1 ∷ []))

  -- What the sink gets for an event, behind the events so far.
  abbrev pub IsReported : Option (Point f) → Bool × EventType f → List LocalEvent → Type 0
  IsReported p (false, mouse_move x y) s = s ≡ motion_abs (f.to_i32 x) (f.to_i32 y) ∷ []
  IsReported none (true, mouse_move x y) s = s ≡ []
  IsReported (some p) (true, mouse_move x y) s =
      IsStep (f.to_i32 (f.sub x p.0), f.to_i32 (f.sub y p.1)) s
  IsReported p (g, button_press b) s = s ≡ button_event (map_button b) true ∷ []
  IsReported p (g, button_release b) s = s ≡ button_event (map_button b) false ∷ []
  IsReported p (g, wheel_turn x y) s = s ≡ wheel (as_i16 x) (as_i16 y) ∷ []
  IsReported p (g, key_press k) s = IsKeyOf KeyAction.down (map_key k) s
  IsReported p (g, key_release k) s = IsKeyOf KeyAction.up (map_key k) s

  abbrev pub AllTurns :
      List (Bool × EventType f)
      → List (Bool × EventType f)
      → List (List LocalEvent × Option (EventType f))
      → Type 0
  AllTurns past [] [] = Unit {0}
  AllTurns past (e ∷ es) (r ∷ rs) =
      (r.1 ≡ (if e.0 then none else some e.1))
      × IsReported (left_at past) e r.0
      × AllTurns (e ∷ past) es rs
  AllTurns past _ _ = ⊥

  moved-IsStep : (d : ℤ × ℤ) → IsStep d (moved f (some d))
  moved-IsStep d = ground arith

  key_events-IsKeyOf : (a : KeyAction) (k : Option KeyId) → IsKeyOf a k (key_events f a k)
  key_events-IsKeyOf a none = refl
  key_events-IsKeyOf a (some id) = refl

  translate-IsReported :
      (g : Bool) (p : Option (Point f)) (e : EventType f)
      → IsReported p (g, e) (translate f center e g p).sunk
  unfolding translate map_button
  translate-IsReported false p (mouse_move x y) = refl
  translate-IsReported true none (mouse_move x y) = refl
  translate-IsReported true (some p) (mouse_move x y) = moved-IsStep _
  translate-IsReported g p (button_press b) = refl
  translate-IsReported g p (button_release b) = refl
  translate-IsReported g p (wheel_turn x y) = refl
  translate-IsReported g p (key_press k) = key_events-IsKeyOf KeyAction.down (map_key k)
  translate-IsReported g p (key_release k) = key_events-IsKeyOf KeyAction.up (map_key k)

  -- The position that the backend remembers is where the cursor has been left.
  translate-left_at :
      (g : Bool) (e : EventType f) (past : List (Bool × EventType f))
      → (translate f center e g (left_at past)).last_pos ≡ left_at ((g, e) ∷ past)
  unfolding translate
  translate-left_at false (mouse_move x y) past = refl
  translate-left_at true (mouse_move x y) past =
      ap (λ (q : Point f). some q) (home_or_here center x y)
    where
      home_or_here : (c : Option (Point f)) (x y : f.F) → home_at f c x y ≡ or_here c (x, y)
      home_or_here none x y = refl
      home_or_here (some q) x y = refl
  translate-left_at false (button_press b) past = refl
  translate-left_at false (button_release b) past = refl
  translate-left_at false (wheel_turn x y) past = refl
  translate-left_at false (key_press k) past = refl
  translate-left_at false (key_release k) past = refl
  translate-left_at true (button_press b) past = refl
  translate-left_at true (button_release b) past = refl
  translate-left_at true (wheel_turn x y) past = refl
  translate-left_at true (key_press k) past = refl
  translate-left_at true (key_release k) past = refl

  capture_from :
      (past es : List (Bool × EventType f)) → AllTurns past es (capture f center (left_at past) es)
  unfolding capture callback
  capture_from past [] = tt
  capture_from past ((g, e) ∷ es) = (
    refl,
    translate-IsReported g (left_at past) e,
    subst (λ (p : Option (Point f)). AllTurns ((g, e) ∷ past) es (capture f center p es))
        (sym (translate-left_at g e past)) (capture_from ((g, e) ∷ past) es),
  )

  -- Over any run of the grab loop, each event comes back to the local machine exactly while the grab is
  -- off. A motion is reported as its position then; while the grab is on it is reported as the distance
  -- from where the cursor was left, which is the position of the motion before, or the centre if that
  -- one was grabbed and a centre is known, and is not reported if that distance is nothing or no motion
  -- has come before. A button, the wheel and a key that has an id are reported whatever the grab.
  pub capture-AllTurns :
      (es : List (Bool × EventType f)) → AllTurns [] es (capture f center none es)
  capture-AllTurns es = capture_from [] es
