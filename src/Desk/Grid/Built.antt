-- ===== src/Desk/Grid/Built.antt =====
-- `build_layout` of src-tauri/src/lib.rs against the grid.
use self_kvm.Common.{
  List, [], ◌∷◌, ◌≡◌, refl, sym, ◌∙◌, arith, Bool, true, false, inl, inr, none, some, ◌&&◌, ◌↔◌,
  Bool-cases, if◌then◌else◌, ◌=l=◌, =l=→eq,
}
use self_kvm.Common.Int.{ℤ, =ℤ=→eq, ◌=ℤ=◌}
use self_kvm.Common.Map.{Name}
use self_kvm.Core.Layout.{Edge, left, right, top, bottom, opposite, ScreenLayout, new_layout, link}
use self_kvm.Core.Layout.Links.{next_to}
use self_kvm.Desk.Grid.{
  ScreenDto, next_cell, is_right_of, is_below, link_cells, link_row, link_all, build_layout,
  add_all,
}
use self_kvm.Desk.Grid.Bare.{add_all-IsPresent_each, add_all-next_to}
use self_kvm.Desk.Grid.Cells.{Borders, IsGrid, Borders-distinct}
use mathlib.Core.List.{Memᴰ}
use self_kvm.Desk.Grid.Linked.{Seat, IsTrue, Good, linking, link-Good}

both : (a b c d : ℤ) → ((a =ℤ= b && c =ℤ= d) ≡ true) ↔ ((a ≡ b) × (c ≡ d))
both a b c d = ground (arith, =ℤ=→eq a b, =ℤ=→eq c d)

is_right_of_iff : (a b : ScreenDto) → (is_right_of a b ≡ true) ↔ Borders right a b
is_right_of_iff a b = both a.row b.row b.col (next_cell a.col)

is_below_iff : (a b : ScreenDto) → (is_below a b ≡ true) ↔ Borders bottom a b
is_below_iff a b = both a.col b.col b.row (next_cell a.row)

nothing_found : {a : Name} → none ≡ some a → ⊥
nothing_found h = cc

module _ (ss : List ScreenDto) (g : IsGrid ss) where
  Good-refl : (l : ScreenLayout) → IsTrue ss l → Good ss l l
  Good-refl l h = (h, λ s e b ms q. q)

  Good-trans : (l m k : ScreenLayout) → Good ss l m → Good ss m k → Good ss l k
  Good-trans l m k p q = (q.0, λ s e b ms r. q.1 s e b ms (p.1 s e b ms r))

  -- Two screens border each other in the layout.
  abbrev Joined : Edge → ScreenDto → ScreenDto → ScreenLayout → Type 0
  Joined e a b l =
      (next_to l a.name e ≡ some b.name) × (next_to l b.name (opposite e) ≡ some a.name)

  Joined-Extends :
      (l m : ScreenLayout) (e : Edge) (a b : ScreenDto)
      → Seat ss a
      → Seat ss b
      → Good ss l m
      → Joined e a b l
      → Joined e a b m
  Joined-Extends l m e a b ma mb p j = (p.1 a e b.name ma j.0, p.1 b (opposite e) a.name mb j.1)

  -- One `if` of the inner loop.
  link_if :
      (c : Bool) (l : ScreenLayout) (a b : ScreenDto) (e : Edge)
      → IsTrue ss l
      → Seat ss a
      → Seat ss b
      → (c ≡ true → Borders e a b)
      → Good ss l (if c then link l a.name e b.name else l)
        × (c ≡ true → Joined e a b (if c then link l a.name e b.name else l))
  link_if true l a b e h ma mb ab =
      let r = linking ss g l h a b e ma mb (ab refl) in
      (link-Good ss g l h a b e ma mb (ab refl), λ q. (r.0, r.1))
  link_if false l a b e h ma mb ab = (Good-refl l h, λ q. absurd (cc q))

  -- The screens border each other in the layout if their cells do.
  abbrev Meets : ScreenDto → ScreenDto → ScreenLayout → Type 0
  Meets a b l =
      (Borders right a b → Joined right a b l) × (Borders bottom a b → Joined bottom a b l)

  Meets-Extends :
      (l m : ScreenLayout) (a b : ScreenDto)
      → Seat ss a
      → Seat ss b
      → Good ss l m
      → Meets a b l
      → Meets a b m
  Meets-Extends l m a b ma mb p j = (
    λ r. Joined-Extends l m right a b ma mb p (j.0 r),
    λ r. Joined-Extends l m bottom a b ma mb p (j.1 r),
  )

  link_cells-Good :
      (l : ScreenLayout) (a b : ScreenDto)
      → IsTrue ss l
      → Seat ss a
      → Seat ss b
      → Good ss l (link_cells a b l) × Meets a b (link_cells a b l)
  unfolding link_cells
  link_cells-Good l a b h ma mb = elim (Bool-cases (a.name =l= b.name)) [
    | inl e ↦
        let same = =l=→eq a.name b.name e in
        rw e (
          Good-refl l h,
          (
            λ r. absurd (Borders-distinct ss g right a b ma mb r same),
            λ r. absurd (Borders-distinct ss g bottom a b ma mb r same),
          ),
        )
    | inr e ↦
        let first = link_if (is_right_of a b) l a b right h ma mb (is_right_of_iff a b).0 in
        let second =
          link_if (is_below a b) (if is_right_of a b then link l a.name right b.name else l) a b
            bottom first.0.0 ma mb (is_below_iff a b).0 in
        rw e (
          Good-trans _ _ _ first.0 second.0,
          (
            λ r. Joined-Extends _ _ right a b ma mb second.0 (first.1 ((is_right_of_iff a b).1 r)),
            λ r. second.1 ((is_below_iff a b).1 r),
          ),
        )
  ]

  link_row-Good :
      (a : ScreenDto) (bs : List ScreenDto) (l : ScreenLayout)
      → IsTrue ss l
      → Seat ss a
      → ((b : ScreenDto) → Memᴰ b bs → Seat ss b)
      → Good ss l (link_row a bs l) × ((b : ScreenDto) → Memᴰ b bs → Meets a b (link_row a bs l))
  unfolding link_row
  link_row-Good a [] l h ma mbs = (Good-refl l h, λ b m. elim m [ ])
  link_row-Good a (b ∷ bs) l h ma mbs =
      let one = link_cells-Good l a b h ma (mbs b (Memᴰ.head refl)) in
      let rest = link_row-Good a bs (link_cells a b l) one.0.0 ma (λ c m. mbs c (Memᴰ.tail m)) in
      (
        Good-trans _ _ _ one.0 rest.0,
        row_cases a b bs _ (Meets-Extends _ _ a b ma (mbs b (Memᴰ.head refl)) rest.0 one.1) rest.1,
      )
    where
      row_cases :
          (a b : ScreenDto) (bs : List ScreenDto) (m : ScreenLayout)
          → Meets a b m
          → ((c : ScreenDto) → Memᴰ c bs → Meets a c m)
          → (c : ScreenDto) → Memᴰ c (b ∷ bs)
          → Meets a c m
      row_cases a b bs m p q c (Memᴰ.head e) = rw e p
      row_cases a b bs m p q c (Memᴰ.tail k) = q c k

  link_all-Good :
      (as' bs : List ScreenDto) (l : ScreenLayout)
      → IsTrue ss l
      → ((a : ScreenDto) → Memᴰ a as' → Seat ss a)
      → ((b : ScreenDto) → Memᴰ b bs → Seat ss b)
      → Good ss l (link_all as' bs l)
        × ((a b : ScreenDto) → Memᴰ a as' → Memᴰ b bs → Meets a b (link_all as' bs l))
  unfolding link_all
  link_all-Good [] bs l h mas mbs = (Good-refl l h, λ a b m k. elim m [ ])
  link_all-Good (a ∷ as') bs l h mas mbs =
      let one = link_row-Good a bs l h (mas a (Memᴰ.head refl)) mbs in
      let rest = link_all-Good as' bs (link_row a bs l) one.0.0 (λ c m. mas c (Memᴰ.tail m)) mbs in
      (
        Good-trans _ _ _ one.0 rest.0,
        all_cases a as' bs _
            (λ b k. Meets-Extends _ _ a b (mas a (Memᴰ.head refl)) (mbs b k) rest.0 (one.1 b k))
            rest.1,
      )
    where
      all_cases :
          (a : ScreenDto) (as' bs : List ScreenDto) (m : ScreenLayout)
          → ((b : ScreenDto) → Memᴰ b bs → Meets a b m)
          → ((c b : ScreenDto) → Memᴰ c as' → Memᴰ b bs → Meets c b m)
          → (c b : ScreenDto) → Memᴰ c (a ∷ as')
          → Memᴰ b bs
          → Meets c b m
      all_cases a as' bs m p q c b (Memᴰ.head e) k = rw e (p b k)
      all_cases a as' bs m p q c b (Memᴰ.tail j) k = q c b j k

  start-IsTrue : IsTrue ss (add_all ss new_layout)
  start-IsTrue = record {
    present = add_all-IsPresent_each ss new_layout;
    borders = λ s e b ms q. absurd (nothing_found (sym (add_all-next_to ss s.name e) ∙ q));
  }

  built :
      IsTrue ss (build_layout ss)
      × ((a b : ScreenDto) → Seat ss a → Seat ss b → Meets a b (build_layout ss))
  unfolding build_layout
  built =
      let r = link_all-Good ss ss (add_all ss new_layout) start-IsTrue (λ a m. m) (λ b m. m) in
      (r.0.0, r.1)

  meets :
      (s t : ScreenDto) (e : Edge)
      → Seat ss s
      → Seat ss t
      → Borders e s t
      → next_to (build_layout ss) s.name e ≡ some t.name
  meets s t right ms mt h = ((built.1 s t ms mt).0 h).0
  meets s t bottom ms mt h = ((built.1 s t ms mt).1 h).0
  meets s t left ms mt h = ((built.1 t s mt ms).0 h).1
  meets s t top ms mt h = ((built.1 t s mt ms).1 h).1

  -- A side of a screen of a grid has, in the layout that is built from the grid, exactly the screen whose
  -- cell is on that side, when the screens have different names and different cells and cells are i32s.
  pub build_layout-Borders :
      (s : ScreenDto) (e : Edge) (k : Name)
      → Memᴰ s ss
      → (next_to (build_layout ss) s.name e ≡ some k)
        ↔ ((t : ScreenDto) × Memᴰ t ss × Borders e s t × (k ≡ t.name))
  build_layout-Borders s e k ms =
      (built.0.borders s e k ms, λ (t, mt, h, n). rw n (meets s t e ms mt h))
