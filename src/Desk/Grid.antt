-- ===== src/Desk/Grid.antt =====
-- `build_layout` of src-tauri/src/lib.rs: a layout from the cells of a grid.
pub mod Bare
pub mod Cells
pub mod Linked
pub mod Built
pub mod Sizes
use self_kvm.Common.{ℕ, List, [], ◌∷◌, Bool, true, false, ◌&&◌, if◌then◌else◌, ◌=l=◌}
use self_kvm.Common.Int.{ℤ, pos, ◌+ℤ◌, ◌=ℤ=◌, max_ℤ, as_i32}
use self_kvm.Common.Map.{Name}
use self_kvm.Core.Layout.{right, bottom, ScreenLayout, new_layout, add_screen, link, screen_size}

pub record ScreenDto : Type 0 where
  pub name : Name
  pub w : ℤ
  pub h : ℤ
  pub col : ℤ
  pub row : ℤ

-- `c + 1` of a release build.
abbrev pub next_cell : ℤ → ℤ
next_cell c = as_i32 (c +ℤ pos 1)

unfoldable pub add_all : List ScreenDto → ScreenLayout → ScreenLayout
unfolding max_ℤ
add_all [] l = l
add_all (s ∷ ss) l =
    add_all ss (add_screen l s.name (screen_size (max_ℤ s.w (pos 1)) (max_ℤ s.h (pos 1))))

-- The body of the two loops.
abbrev pub is_right_of : ScreenDto → ScreenDto → Bool
is_right_of a b = a.row =ℤ= b.row && b.col =ℤ= next_cell a.col

abbrev pub is_below : ScreenDto → ScreenDto → Bool
is_below a b = a.col =ℤ= b.col && b.row =ℤ= next_cell a.row

unfoldable pub link_cells : ScreenDto → ScreenDto → ScreenLayout → ScreenLayout
link_cells a b l =
    if a.name =l= b.name
    then l
    else let l1 = (if is_right_of a b then link l a.name right b.name else l) in
      if is_below a b then link l1 a.name bottom b.name else l1

unfoldable pub link_row : ScreenDto → List ScreenDto → ScreenLayout → ScreenLayout
unfolding link_cells
link_row a [] l = l
link_row a (b ∷ bs) l = link_row a bs (link_cells a b l)

unfoldable pub link_all : List ScreenDto → List ScreenDto → ScreenLayout → ScreenLayout
unfolding link_row
link_all [] bs l = l
link_all (a ∷ as') bs l = link_all as' bs (link_row a bs l)

unfoldable pub build_layout : List ScreenDto → ScreenLayout
unfolding add_all link_all
build_layout screens = link_all screens screens (add_all screens new_layout)
