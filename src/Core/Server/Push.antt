-- ===== src/Core/Server/Push.antt =====
-- One motion of a pixel to the left in crates/kvm-core/src/server.rs.
use self_kvm.Common.{◌<◌, ℕ, suc, true, ◌≡◌, refl, ◌∙◌, ap, arith, some, Bool-cases, inl, inr}
use self_kvm.Common.Int.{
  ℤ, ◌≤ℤ◌, ◌<ℤ◌, int_laws, pos, negsuc, ◌+ℤ◌, ◌-ℤ◌, as_i32, as_i32-id, +ℤ_zero, IsI32, i32_as_u32,
  u32_as_i32,
}
use self_kvm.Common.Map.{Name, lookup}
use self_kvm.Core.Layout.{
  left, ScreenLayout, ScreenNode, Crossing, neighbor, edge_at, entry_point, crossing_to,
  detect_crossing, clamp_to,
}
use self_kvm.Core.Layout.Scale.{clamp-id, sub_i32-pos}
use self_kvm.Core.Layout.Crossings.{IsScreen, Inside}
use self_kvm.Core.Events.{LocalEvent, motion_rel}
use self_kvm.Core.Server.{
  ServerMachine, is_remote, handle, handle_remote, track_modifiers, move_by, try_cross, crossing_of,
  settle, stay, cross,
}

abbrev pub push : LocalEvent
push = motion_rel (negsuc 0) (pos 0)

-- One event moves the cursor by one pixel.
abbrev pub shifted : ServerMachine → ServerMachine
shifted m = move_by m (negsuc 0) (pos 0)

handle-push :
    (m : ServerMachine)
    → is_remote m ≡ true
    → handle m push ≡ settle (shifted m) (crossing_of (shifted m))
unfolding handle handle_remote track_modifiers try_cross is_remote
handle-push m h = rw h refl

pub handle-push_at :
    (m m' : ServerMachine)
    → is_remote m ≡ true
    → shifted m ≡ m'
    → handle m push ≡ settle m' (crossing_of m')
handle-push_at m m' h e = handle-push m h ∙ ap (λ q. settle q (crossing_of q)) e

pub step_left : (x : ℕ) → suc x < 2147483648 → as_i32 (pos (suc x) +ℤ negsuc 0) ≡ pos x
unfolding ◌+ℤ◌
step_left x h =
    let e : pos (suc x) +ℤ negsuc 0 ≡ pos x = ground arith in
    ap as_i32 e ∙ as_i32-id (pos x) (omega arith, omega arith)

pub step_out : as_i32 (pos 0 +ℤ negsuc 0) ≡ negsuc 0
unfolding ◌+ℤ◌ as_i32 i32_as_u32 u32_as_i32
step_out = refl

pub step_same : (y : ℤ) → IsI32 y → as_i32 (y +ℤ pos 0) ≡ y
step_same y h = ap as_i32 (+ℤ_zero y) ∙ as_i32-id y h

pub minus_zero : (y h : ℤ) → y <ℤ h → y <ℤ h -ℤ pos 0
minus_zero y h p = omega int_laws

pub cross-active : (m : ServerMachine) (c : Crossing) → (cross m c).0.active ≡ c.to
unfolding cross
cross-active m c = ground arith

pub stay-still :
    (m : ServerMachine)
    → clamp_to m.layout m.active m.cursor_x m.cursor_y ≡ (m.cursor_x, m.cursor_y)
    → (stay m).0 ≡ m
unfolding stay
stay-still m e = elim (Bool-cases (is_remote m)) [ inl r ↦ rw (r, e) refl | inr r ↦ rw r refl ]

-- Clamping leaves a pixel of the screen where it is.
pub clamp_to-id :
    (l : ScreenLayout) (a : Name) (n : ScreenNode) (x y : ℤ)
    → lookup a l.nodes ≡ some n
    → IsScreen n.size
    → Inside n.size x y
    → clamp_to l a x y ≡ (x, y)
unfolding clamp_to
clamp_to-id l a n x y e s h =
    rw
      (
        e,
        clamp_to,
        sub_i32-pos n.size.w 1 s.w_i32 (omega (arith, s.w_pos)) (omega arith),
        sub_i32-pos n.size.h 1 s.h_i32 (omega (arith, s.h_pos)) (omega arith),
        clamp-id x (pos 0) (n.size.w -ℤ pos 1) h.0 (omega (int_laws, h.1)),
        clamp-id y (pos 0) (n.size.h -ℤ pos 1) h.2 (omega (int_laws, h.3)),
      )
      refl

-- One pixel to the left of the screen is over its left border.
pub detect_left :
    (l : ScreenLayout) (a k : Name) (n t : ScreenNode) (y : ℤ)
    → lookup a l.nodes ≡ some n
    → neighbor n.neighbors left ≡ some k
    → lookup k l.nodes ≡ some t
    → detect_crossing l a (negsuc 0) y (pos 0)
      ≡ some (crossing_to k left (entry_point left n.size t.size (negsuc 0) y))
unfolding detect_crossing edge_at
detect_left l a k n t y p q r = rw (p, q, r) refl

pub cursor_fits : (y h : ℤ) → IsI32 h → pos 0 ≤ℤ y → y <ℤ h → IsI32 y
cursor_fits y h p q r = ground arith
