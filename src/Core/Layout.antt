-- ===== src/Core/Layout.antt =====
-- crates/kvm-core/src/layout.rs: screens, their neighbours, and where the cursor crosses.
pub mod Scale
pub mod Crossings
pub mod Links
pub mod Sizes
use self_kvm.Common.{ℕ, List, [], ◌≡◌, refl, Option, none, some, Bool, ◌&&◌, ◌||◌, if◌then◌else◌}
use self_kvm.Common.Int.{
  ℤ, pos, negsuc, ◌+ℤ◌, ◌-ℤ◌, ◌*ℤ◌, ◌/ℤ◌, ltb_ℤ, leb_ℤ, max_ℤ, min_ℤ, as_i32, i32_as_u32,
  u32_as_i32,
}
use self_kvm.Common.Map.{Name, Map, lookup, insert, modify, has}
use mathlib.Core.Option

pub data Edge : Type 0 where
  left right top bottom : Edge

abbrev pub opposite : Edge → Edge
opposite left = right
opposite right = left
opposite top = bottom
opposite bottom = top

pub record ScreenSize : Type 0 where
  pub w : ℤ
  pub h : ℤ

-- `ScreenSize::new`
abbrev pub screen_size : ℤ → ℤ → ScreenSize
screen_size a b = record { w = a; h = b }

pub record Neighbors : Type 0 where
  pub to_left : Option Name
  pub to_right : Option Name
  pub to_top : Option Name
  pub to_bottom : Option Name

abbrev pub no_neighbors : Neighbors
no_neighbors = record { to_left = none; to_right = none; to_top = none; to_bottom = none }

-- `Neighbors::get` and `Neighbors::set`
abbrev pub neighbor : Neighbors → Edge → Option Name
neighbor n left = n.to_left
neighbor n right = n.to_right
neighbor n top = n.to_top
neighbor n bottom = n.to_bottom

abbrev pub set_neighbor : Edge → Option Name → Neighbors → Neighbors
set_neighbor left s n = record n { to_left = s }
set_neighbor right s n = record n { to_right = s }
set_neighbor top s n = record n { to_top = s }
set_neighbor bottom s n = record n { to_bottom = s }

pub record ScreenNode : Type 0 where
  pub size : ScreenSize
  pub neighbors : Neighbors

pub record Crossing : Type 0 where
  pub to : Name
  pub from_edge : Edge
  pub entry_x : ℤ
  pub entry_y : ℤ

pub record ScreenLayout : Type 0 where
  pub nodes : Map ScreenNode

-- `ScreenLayout::new`
abbrev pub new_layout : ScreenLayout
new_layout = record { nodes = [] }

unfoldable pub add_screen : ScreenLayout → Name → ScreenSize → ScreenLayout
add_screen l name s = record l {
  nodes = insert name (record { size = s; neighbors = no_neighbors }) l.nodes;
}

abbrev pub link_to : Edge → Name → ScreenNode → ScreenNode
link_to edge b n = record n { neighbors = set_neighbor edge (some b) n.neighbors }

unfoldable pub link : ScreenLayout → Name → Edge → Name → ScreenLayout
link l a edge b = record l {
  nodes = modify b (link_to (opposite edge) a) (modify a (link_to edge b) l.nodes);
}

unfoldable pub size_of : ScreenLayout → Name → Option ScreenSize
size_of l screen = Option.map (λ n. n.size) (lookup screen l.nodes)

unfoldable pub contains : ScreenLayout → Name → Bool
contains l screen = has screen l.nodes

-- `v.max(lo).min(hi.max(lo))`
unfoldable pub clamp : ℤ → ℤ → ℤ → ℤ
unfolding min_ℤ max_ℤ
clamp v lo hi = min_ℤ (max_ℤ v lo) (max_ℤ hi lo)

-- i32 subtraction of a release build.
abbrev pub sub_i32 : ℤ → ℤ → ℤ
sub_i32 a b = as_i32 (a -ℤ b)

-- The product and the quotient are taken in i64, which holds every product of two i32s.
unfoldable pub scale : ℤ → ℤ → ℤ → ℤ
scale v from to =
    if leb_ℤ from (pos 1) || leb_ℤ to (pos 0)
    then pos 0
    else clamp (as_i32 (v *ℤ to /ℤ from)) (pos 0) (sub_i32 to (pos 1))

-- Which edge the position has run off, horizontal edges first.
unfoldable pub edge_at : ScreenSize → ℤ → ℤ → ℤ → Option Edge
edge_at s x y margin =
    if ltb_ℤ x margin
    then some left
    else if leb_ℤ (sub_i32 s.w margin) x
    then some right
    else if ltb_ℤ y margin
    then some top
    else if leb_ℤ (sub_i32 s.h margin) y
    then some bottom
    else none

-- Where a cursor at `(x, y)` of a screen of size `s` enters one of size `t`.
unfoldable pub entry_point : Edge → ScreenSize → ScreenSize → ℤ → ℤ → ℤ × ℤ
entry_point left s t x y =
    (sub_i32 t.w (pos 1), scale (clamp y (pos 0) (sub_i32 s.h (pos 1))) s.h t.h)
entry_point right s t x y = (pos 0, scale (clamp y (pos 0) (sub_i32 s.h (pos 1))) s.h t.h)
entry_point top s t x y =
    (scale (clamp x (pos 0) (sub_i32 s.w (pos 1))) s.w t.w, sub_i32 t.h (pos 1))
entry_point bottom s t x y = (scale (clamp x (pos 0) (sub_i32 s.w (pos 1))) s.w t.w, pos 0)

-- `?` on an Option.
infixl 5 ◌>>=◌
abbrev pub ◌>>=◌ : {A B : Type 0} → Option A → (A → Option B) → Option B
none >>= f = none
some a >>= f = f a

abbrev pub crossing_to : Name → Edge → ℤ × ℤ → Crossing
crossing_to to edge p = record { to = to; from_edge = edge; entry_x = p.0; entry_y = p.1 }

unfoldable pub detect_crossing : ScreenLayout → Name → ℤ → ℤ → ℤ → Option Crossing
detect_crossing l active x y margin = do
  node ← lookup active l.nodes
  edge ← edge_at node.size x y margin
  to ← neighbor node.neighbors edge
  target ← lookup to l.nodes
  some (crossing_to to edge (entry_point edge node.size target.size x y))

unfoldable pub clamp_to : ScreenLayout → Name → ℤ → ℤ → ℤ × ℤ
clamp_to l screen x y = elim (lookup screen l.nodes) [
  | some n ↦
      (clamp x (pos 0) (sub_i32 n.size.w (pos 1)), clamp y (pos 0) (sub_i32 n.size.h (pos 1)))
  | none ↦ (x, y)
]
