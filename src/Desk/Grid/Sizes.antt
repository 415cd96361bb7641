-- ===== src/Desk/Grid/Sizes.antt =====
-- The sizes of the screens that `build_layout` of src-tauri/src/lib.rs makes, whatever the grid.
use self_kvm.Common.{List, [], ◌∷◌, arith, All, Bool, true, false, if◌then◌else◌, ◌=l=◌}
use self_kvm.Common.Int.{ℤ, pos, max_ℤ, IsI32}
use self_kvm.Core.Layout.{right, bottom, ScreenLayout, new_layout, link, screen_size}
use self_kvm.Core.Layout.Sizes.{link-IsLayout, add_screen-IsLayout}
use self_kvm.Core.Layout.Crossings.{IsLayout, IsScreen}
use self_kvm.Desk.Grid.{
  ScreenDto, add_all, link_cells, link_row, link_all, build_layout, is_right_of, is_below,
}

if-IsLayout :
    (c : Bool) (l m : ScreenLayout) → IsLayout l → IsLayout m → IsLayout (if c then l else m)
if-IsLayout true l m p q = p
if-IsLayout false l m p q = q

link_cells-IsLayout :
    (a b : ScreenDto) (l : ScreenLayout) → IsLayout l → IsLayout (link_cells a b l)
unfolding link_cells
link_cells-IsLayout a b l h =
    let l1 = (if is_right_of a b then link l a.name right b.name else l) in
    let h1 = if-IsLayout (is_right_of a b) _ l (link-IsLayout l a.name b.name right h) h in
    if-IsLayout (a.name =l= b.name) l _ h
      (if-IsLayout (is_below a b) _ l1 (link-IsLayout l1 a.name b.name bottom h1) h1)

link_row-IsLayout :
    (a : ScreenDto) (bs : List ScreenDto) (l : ScreenLayout)
    → IsLayout l
    → IsLayout (link_row a bs l)
unfolding link_row
link_row-IsLayout a [] l h = h
link_row-IsLayout a (b ∷ bs) l h = link_row-IsLayout a bs _ (link_cells-IsLayout a b l h)

link_all-IsLayout :
    (as' bs : List ScreenDto) (l : ScreenLayout) → IsLayout l → IsLayout (link_all as' bs l)
unfolding link_all
link_all-IsLayout [] bs l h = h
link_all-IsLayout (a ∷ as') bs l h = link_all-IsLayout as' bs _ (link_row-IsLayout a bs l h)

-- Sizes below one pixel are raised to one.
pub raised :
    (w h : ℤ) → IsI32 w → IsI32 h → IsScreen (screen_size (max_ℤ w (pos 1)) (max_ℤ h (pos 1)))
unfolding max_ℤ
raised w h p q = record {
  w_i32 = ground arith;
  h_i32 = ground arith;
  w_pos = ground arith;
  h_pos = ground arith;
}

add_all-IsLayout :
    (ss : List ScreenDto) (l : ScreenLayout)
    → All (λ s. IsI32 s.w × IsI32 s.h) ss
    → IsLayout l
    → IsLayout (add_all ss l)
unfolding add_all
add_all-IsLayout [] l p h = h
add_all-IsLayout (s ∷ ss) l p h =
    add_all-IsLayout ss _ p.1 (add_screen-IsLayout l s.name _ (raised s.w s.h p.0.0 p.0.1) h)

pub build_layout-IsLayout :
    (ss : List ScreenDto) → All (λ s. IsI32 s.w × IsI32 s.h) ss → IsLayout (build_layout ss)
unfolding build_layout
build_layout-IsLayout ss p =
    link_all-IsLayout ss ss _ (add_all-IsLayout ss new_layout p (λ k n q. absurd (cc q)))
