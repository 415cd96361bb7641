-- ===== src/Desk/Grid/Cells.antt =====
-- The cells of the grid that src-tauri/src/lib.rs builds a layout from.
use self_kvm.Common.{List, ◌≡◌, ◌≢◌, sym, ◌∙◌, ap, arith, ◌⊎◌}
use self_kvm.Common.Int.{ℤ, IsI32, ◌+ℤ◌, as_i32, i32_as_u32, u32_as_i32}
use self_kvm.Core.Layout.{Edge, left, right, top, bottom, opposite}
use self_kvm.Desk.Grid.{ScreenDto, next_cell}
use mathlib.Core.List.{Memᴰ}

-- `t` is in the cell at the side `e` of `s`.
abbrev pub Borders : Edge → ScreenDto → ScreenDto → Type 0
Borders right s t = (s.row ≡ t.row) × (t.col ≡ next_cell s.col)
Borders left s t = (t.row ≡ s.row) × (s.col ≡ next_cell t.col)
Borders bottom s t = (s.col ≡ t.col) × (t.row ≡ next_cell s.row)
Borders top s t = (t.col ≡ s.col) × (s.row ≡ next_cell t.row)

pub Borders-opposite : (e : Edge) (s t : ScreenDto) → Borders e s t → Borders (opposite e) t s
Borders-opposite left s t h = h
Borders-opposite right s t h = h
Borders-opposite top s t h = h
Borders-opposite bottom s t h = h

pub Edge-cases : (e f : Edge) → (e ≡ f) ⊎ (e ≢ f)
Edge-cases e f = ground arith

pub next_cell_inj : (c d : ℤ) → IsI32 c → IsI32 d → next_cell c ≡ next_cell d → c ≡ d
unfolding ◌+ℤ◌ as_i32 i32_as_u32 u32_as_i32
next_cell_inj c d hc hd e = ground arith

pub next_cell_ne : (c : ℤ) → IsI32 c → next_cell c ≢ c
unfolding ◌+ℤ◌ as_i32 i32_as_u32 u32_as_i32
next_cell_ne c h e = ground arith

-- A grid: the screens have different names and different cells.
pub record IsGrid (ss : List ScreenDto) : Type 0 where
  pub cells_i32 : (s : ScreenDto) → Memᴰ s ss → IsI32 s.col × IsI32 s.row
  pub names : (s t : ScreenDto) → Memᴰ s ss → Memᴰ t ss → s.name ≡ t.name → s ≡ t
  pub places : (s t : ScreenDto) → Memᴰ s ss → Memᴰ t ss → s.col ≡ t.col → s.row ≡ t.row → s ≡ t

module _ (ss : List ScreenDto) (g : IsGrid ss) where
  pub Borders-unique :
      (e : Edge) (s t u : ScreenDto)
      → Memᴰ s ss
      → Memᴰ t ss
      → Memᴰ u ss
      → Borders e s t
      → Borders e s u
      → t ≡ u
  Borders-unique right s t u ms mt mu h k = g.places t u mt mu (h.1 ∙ sym k.1) (sym h.0 ∙ k.0)
  Borders-unique bottom s t u ms mt mu h k = g.places t u mt mu (sym h.0 ∙ k.0) (h.1 ∙ sym k.1)
  Borders-unique left s t u ms mt mu h k =
      g.places t u mt mu
        (next_cell_inj t.col u.col (g.cells_i32 t mt).0 (g.cells_i32 u mu).0 (sym h.1 ∙ k.1))
        (h.0 ∙ sym k.0)
  Borders-unique top s t u ms mt mu h k =
      g.places t u mt mu (h.0 ∙ sym k.0)
        (next_cell_inj t.row u.row (g.cells_i32 t mt).1 (g.cells_i32 u mu).1 (sym h.1 ∙ k.1))

  -- Nothing borders itself.
  pub Borders-distinct :
      (e : Edge) (s t : ScreenDto) → Memᴰ s ss → Memᴰ t ss → Borders e s t → s.name ≢ t.name
  Borders-distinct right s t ms mt h n =
      next_cell_ne s.col (g.cells_i32 s ms).0
        (sym h.1 ∙ ap (λ x. x.col) (sym (g.names s t ms mt n)))
  Borders-distinct bottom s t ms mt h n =
      next_cell_ne s.row (g.cells_i32 s ms).1
        (sym h.1 ∙ ap (λ x. x.row) (sym (g.names s t ms mt n)))
  Borders-distinct left s t ms mt h n =
      next_cell_ne t.col (g.cells_i32 t mt).0 (sym h.1 ∙ ap (λ x. x.col) (g.names s t ms mt n))
  Borders-distinct top s t ms mt h n =
      next_cell_ne t.row (g.cells_i32 t mt).1 (sym h.1 ∙ ap (λ x. x.row) (g.names s t ms mt n))
