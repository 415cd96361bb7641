-- ===== src/Desk/Grid/Linked.antt =====
-- One `link` of `build_layout` of src-tauri/src/lib.rs: what is in the layout is right, and stays.
use self_kvm.Common.{
  List, ◌≡◌, ◌≢◌, refl, sym, ◌∙◌, ap, true, false, ◌⊎◌, inl, inr, some, Bool-cases, ◌=l=◌, =l=→eq,
  =l=_refl,
}
use self_kvm.Common.Map.{Name}
use self_kvm.Core.Layout.{Edge, opposite, ScreenLayout, link}
use self_kvm.Core.Layout.Links.{next_to, link-next_to, link-lookup}
use self_kvm.Desk.Grid.{ScreenDto}
use self_kvm.Desk.Grid.Bare.{IsPresent}
use self_kvm.Desk.Grid.Cells.{
  Borders, Borders-opposite, Edge-cases, IsGrid, Borders-unique, Borders-distinct,
}
use mathlib.Core.List.{Memᴰ}

Name-cases : (a b : Name) → (a ≡ b) ⊎ (a ≢ b)
Name-cases a b = elim (Bool-cases (a =l= b)) [
  | inl e ↦ inl (=l=→eq a b e)
  | inr e ↦ inr (λ q. absurd (true_false (sym (rw (q, =l=_refl b) refl) ∙ e)))
]
  where
    true_false : true ≡ false → ⊥
    true_false h = cc

some_eq : {a b : Name} → some a ≡ some b → a ≡ b
some_eq h = cc

module _ (ss : List ScreenDto) where
  abbrev pub Seat : ScreenDto → Type 0
  Seat s = Memᴰ s ss

  -- Every screen is in the layout, and what it has at a side is the screen in that cell.
  pub record IsTrue (l : ScreenLayout) : Type 0 where
    pub present : (s : ScreenDto) → Seat s → IsPresent l s.name
    pub borders :
        (s : ScreenDto) (e : Edge) (b : Name)
        → Seat s
        → next_to l s.name e ≡ some b
        → (t : ScreenDto) × Seat t × Borders e s t × (b ≡ t.name)

  -- Borders that are there stay.
  abbrev pub Extends : ScreenLayout → ScreenLayout → Type 0
  Extends l m =
      (s : ScreenDto) (e : Edge) (b : Name)
      → Seat s
      → next_to l s.name e ≡ some b
      → next_to m s.name e ≡ some b

  abbrev pub Good : ScreenLayout → ScreenLayout → Type 0
  Good l m = IsTrue m × Extends l m

module _ (ss : List ScreenDto) (g : IsGrid ss) where
  module _ (l : ScreenLayout) (h : IsTrue ss l) (a b : ScreenDto) (e : Edge) (ma : Seat ss a)
      (mb : Seat ss b) (ab : Borders e a b) where
    abbrev after : ScreenLayout
    after = link l a.name e b.name

    abbrev distinct : a.name ≢ b.name
    distinct = Borders-distinct ss g e a b ma mb ab

    pub linking :
        (next_to after a.name e ≡ some b.name)
        × (next_to after b.name (opposite e) ≡ some a.name)
        × ((f : Edge) → f ≢ e → next_to after a.name f ≡ next_to l a.name f)
        × ((f : Edge) → f ≢ opposite e → next_to after b.name f ≡ next_to l b.name f)
        × ((k : Name) (f : Edge) → k ≢ a.name → k ≢ b.name → next_to after k f ≡ next_to l k f)
    linking =
        let (na, ea) = h.present a ma in
        let (nb, eb) = h.present b mb in link-next_to l a.name b.name e na nb distinct ea eb

    -- Where a link may change something.
    touched :
        (s : ScreenDto) (f : Edge)
        → Seat ss s
        → ((s ≡ a) × (f ≡ e))
          ⊎ (((s ≡ b) × (f ≡ opposite e)) ⊎ (next_to after s.name f ≡ next_to l s.name f))
    touched s f ms = elim (Name-cases s.name a.name) [
      | inl n ↦ elim (Edge-cases f e) [
        | inl q ↦ inl (g.names s a ms ma n, q)
        | inr q ↦ inr (inr (rw n (linking.2 f q)))
      ]
      | inr n ↦ elim (Name-cases s.name b.name) [
        | inl m ↦ elim (Edge-cases f (opposite e)) [
          | inl q ↦ inr (inl (g.names s b ms mb m, q))
          | inr q ↦ inr (inr (rw m (linking.3 f q)))
        ]
        | inr m ↦ inr (inr (linking.4 s.name f n m))
      ]
    ]

    link-IsPresent : (s : ScreenDto) → Seat ss s → IsPresent after s.name
    link-IsPresent s ms = let (n, q) = h.present s ms in link-lookup l a.name b.name s.name e n q

    link-Borders :
        (s : ScreenDto) (f : Edge) (k : Name)
        → Seat ss s
        → next_to after s.name f ≡ some k
        → (t : ScreenDto) × Seat ss t × Borders f s t × (k ≡ t.name)
    link-Borders s f k ms q = elim (touched s f ms) [
      | inl (n, p) ↦ (b, mb, rw (n, p) ab, some_eq (sym q ∙ rw (n, p) linking.0))
      | inr (inl (n, p)) ↦
          (a, ma, rw (n, p) (Borders-opposite e a b ab), some_eq (sym q ∙ rw (n, p) linking.1))
      | inr (inr u) ↦ h.borders s f k ms (sym u ∙ q)
    ]

    -- What was at a side that the link sets is what it sets there.
    same_border :
        (s : ScreenDto) (f : Edge) (k : Name) (t : ScreenDto)
        → Seat ss s
        → Seat ss t
        → Borders f s t
        → next_to l s.name f ≡ some k
        → k ≡ t.name
    same_border s f k t ms mt st q =
        let (u, mu, su, n) = h.borders s f k ms q in
        n ∙ ap (λ x. x.name) (Borders-unique ss g f s u t ms mu mt su st)

    link-Extends : Extends ss l after
    link-Extends s f k ms q = elim (touched s f ms) [
      | inl (n, p) ↦ rw (same_border s f k b ms mb (rw (n, p) ab) q, n, p) linking.0
      | inr (inl (n, p)) ↦
          rw (same_border s f k a ms ma (rw (n, p) (Borders-opposite e a b ab)) q, n, p) linking.1
      | inr (inr u) ↦ u ∙ q
    ]

    pub link-Good : Good ss l after
    link-Good = (record { present = link-IsPresent; borders = link-Borders }, link-Extends)
