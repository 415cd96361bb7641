-- ===== src/Core/Tests/Places.antt =====
-- The geometry of crates/kvm-core/src/layout.rs at work on the desk.
use self_kvm.Common.{[], ◌∷◌, ◌≡◌, refl, some, arith}
use self_kvm.Common.Int
use self_kvm.Common.Int.{ℤ, pos, negsuc, ◌≤ℤ◌, ◌<ℤ◌, pos_part}
use self_kvm.Common.Map.{Name, lookup}
use self_kvm.Core.Layout
use self_kvm.Core.Layout.{
  Edge, left, right, top, opposite, ScreenNode, ScreenLayout, Crossing, link, scale,
  detect_crossing, add_screen, screen_size, no_neighbors,
}
use self_kvm.Core.Layout.Crossings.{Inside, OnBorder, detect_crossing-lands}
use self_kvm.Core.Layout.Links.{IsSymmetric, link-overrides}
use self_kvm.Core.Tests.{mac, win, desk, desk-IsLayout}

abbrev over : Crossing
over = record { to = win; from_edge = right; entry_x = pos 0; entry_y = pos 360 }

detect_crossing-lands_example :
    (t : ScreenNode) × (lookup win desk.nodes ≡ some t)
    × Inside t.size (pos 0) (pos 360)
    × OnBorder left t.size (pos 0) (pos 360)
unfolding detect_crossing Layout.edge_at Int.as_i32 Int.◌-ℤ◌ Layout.entry_point scale Layout.clamp
    Int.◌/ℤ◌ Int.◌*ℤ◌
detect_crossing-lands_example =
    detect_crossing-lands desk mac (pos 1919) (pos 540) (pos 1) over desk-IsLayout refl

-- Three screens that border nothing yet.
abbrev pad : Name
pad = b'p' ∷ []

abbrev alone : ScreenNode
alone = record { size = screen_size (pos 800) (pos 600); neighbors = no_neighbors }

abbrev loose : ScreenLayout
loose = record { nodes = (mac, alone) ∷ (win, alone) ∷ (pad, alone) ∷ [] }

link-overrides_example : ¬ IsSymmetric (link (link loose mac right win) pad right win)
link-overrides_example =
    link-overrides loose mac win pad right alone alone alone (λ e. ground arith) (λ e. ground arith)
      (λ e. ground arith) refl refl refl
