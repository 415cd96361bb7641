-- ===== src/Core/Layout/Crossings.antt =====
-- `detect_crossing` and `clamp_to` of crates/kvm-core/src/layout.rs against what they promise.
use self_kvm.Common.{ℕ, ◌≤◌, ◌≡◌, refl, sym, arith, Option, none, some}
use mathlib.Core.Path.{subst}
use self_kvm.Common.Int.{ℤ, pos, ◌≤ℤ◌, ◌<ℤ◌, ◌-ℤ◌, IsI32}
use self_kvm.Common.Map.{Name, lookup}
use self_kvm.Core.Layout.{
  opposite, Edge, left, right, top, bottom, ScreenSize, ScreenNode, ScreenLayout, Crossing,
  neighbor, clamp, sub_i32, edge_at, entry_point, detect_crossing, crossing_to, ◌>>=◌,
}
use self_kvm.Core.Layout.Scale.{sub_i32-pos, sub_one_bounds, scale_bounds}

-- A screen with at least one pixel each way.
pub record IsScreen (s : ScreenSize) : Type 0 where
  pub w_i32 : IsI32 s.w
  pub h_i32 : IsI32 s.h
  pub w_pos : pos 1 ≤ℤ s.w
  pub h_pos : pos 1 ≤ℤ s.h

abbrev pub IsLayout : ScreenLayout → Type 0
IsLayout l = (k : Name) (n : ScreenNode) → lookup k l.nodes ≡ some n → IsScreen n.size

-- The position is a pixel of the screen.
abbrev pub Inside : ScreenSize → ℤ → ℤ → Type 0
Inside s x y = (pos 0 ≤ℤ x) × (x <ℤ s.w) × (pos 0 ≤ℤ y) × (y <ℤ s.h)

pub entry_point-Inside :
    (e : Edge) (s t : ScreenSize) (x y : ℤ)
    → IsScreen t
    → Inside t (entry_point e s t x y).0 (entry_point e s t x y).1
unfolding entry_point
entry_point-Inside left s t x y h =
    let a = sub_one_bounds t.w h.w_i32 h.w_pos in
    let b = scale_bounds (clamp y (pos 0) (sub_i32 s.h (pos 1))) s.h t.h h.h_i32 h.h_pos in
    (a.0, a.1, b.0, b.1)
entry_point-Inside right s t x y h =
    let b = scale_bounds (clamp y (pos 0) (sub_i32 s.h (pos 1))) s.h t.h h.h_i32 h.h_pos in
    (omega arith, omega (arith, h.w_pos), b.0, b.1)
entry_point-Inside top s t x y h =
    let a = sub_one_bounds t.h h.h_i32 h.h_pos in
    let b = scale_bounds (clamp x (pos 0) (sub_i32 s.w (pos 1))) s.w t.w h.w_i32 h.w_pos in
    (b.0, b.1, a.0, a.1)
entry_point-Inside bottom s t x y h =
    let b = scale_bounds (clamp x (pos 0) (sub_i32 s.w (pos 1))) s.w t.w h.w_i32 h.w_pos in
    (b.0, b.1, omega arith, omega (arith, h.h_pos))

-- The position is on this border of the screen.
abbrev pub OnBorder : Edge → ScreenSize → ℤ → ℤ → Type 0
OnBorder left s x y = x ≡ pos 0
OnBorder right s x y = x ≡ s.w -ℤ pos 1
OnBorder top s x y = y ≡ pos 0
OnBorder bottom s x y = y ≡ s.h -ℤ pos 1

entry_point-OnBorder :
    (e : Edge) (s t : ScreenSize) (x y : ℤ)
    → IsScreen t
    → OnBorder (opposite e) t (entry_point e s t x y).0 (entry_point e s t x y).1
unfolding entry_point
entry_point-OnBorder left s t x y h =
    sub_i32-pos t.w 1 h.w_i32 (omega (arith, h.w_pos)) (omega arith)
entry_point-OnBorder right s t x y h = refl
entry_point-OnBorder top s t x y h =
    sub_i32-pos t.h 1 h.h_i32 (omega (arith, h.h_pos)) (omega arith)
entry_point-OnBorder bottom s t x y h = refl

-- With margin `m` nothing is crossed by a position at least `m` pixels from every border.
pub edge_at-none :
    (s : ScreenSize) (x y : ℤ) (m : ℕ)
    → IsScreen s
    → m ≤ 1
    → pos m ≤ℤ x
    → x <ℤ s.w -ℤ pos m
    → pos m ≤ℤ y
    → y <ℤ s.h -ℤ pos m
    → edge_at s x y (pos m) ≡ none
unfolding edge_at
edge_at-none s x y m h k a b c d =
    rw
      (
        sub_i32-pos s.w m h.w_i32 (omega (arith, h.w_pos)) (omega arith),
        sub_i32-pos s.h m h.h_i32 (omega (arith, h.h_pos)) (omega arith),
      )
      (ground arith)

pub detect_crossing-none :
    (l : ScreenLayout) (k : Name) (n : ScreenNode) (x y m : ℤ)
    → lookup k l.nodes ≡ some n
    → edge_at n.size x y m ≡ none
    → detect_crossing l k x y m ≡ none
unfolding detect_crossing
detect_crossing-none l k n x y m h e = rw (h, e)

-- What a crossing says of the layout it was found in.
pub record IsCrossing (l : ScreenLayout) (active : Name) (x y m : ℤ) (c : Crossing) : Type 0 where
  pub source : ScreenNode
  pub target : ScreenNode
  pub from_active : lookup active l.nodes ≡ some source
  pub over_edge : edge_at source.size x y m ≡ some c.from_edge
  pub to_neighbor : neighbor source.neighbors c.from_edge ≡ some c.to
  pub in_layout : lookup c.to l.nodes ≡ some target
  pub entry : (c.entry_x, c.entry_y) ≡ entry_point c.from_edge source.size target.size x y

-- A chain of Options that gives a value passes through each of them.
through {ℓ} :
    {A B : Type 0} {P : Type ℓ} (m : Option A) (f : A → Option B) {b : B}
    → (m >>= f) ≡ some b
    → ((a : A) → m ≡ some a → f a ≡ some b → P)
    → P
through none f h k = absurd (cc)
through (some a) f h k = k a refl h

crossing-eq :
    (l : ScreenLayout) (active to : Name) (x y m : ℤ) (c : Crossing) (s t : ScreenNode) (e : Edge)
    → lookup active l.nodes ≡ some s
    → edge_at s.size x y m ≡ some e
    → neighbor s.neighbors e ≡ some to
    → lookup to l.nodes ≡ some t
    → crossing_to to e (entry_point e s.size t.size x y) ≡ c
    → IsCrossing l active x y m c
crossing-eq l active to x y m c s t e e1 e2 e3 e4 h = subst (IsCrossing l active x y m) h (record {
  source = s;
  target = t;
  from_active = e1;
  over_edge = e2;
  to_neighbor = e3;
  in_layout = e4;
  entry = refl;
})

pub detect_crossing-IsCrossing :
    (l : ScreenLayout) (active : Name) (x y m : ℤ) (c : Crossing)
    → detect_crossing l active x y m ≡ some c
    → IsCrossing l active x y m c
unfolding detect_crossing
detect_crossing-IsCrossing l active x y m c h = through (lookup active l.nodes) _ h λ s e1 h1.
    through (edge_at s.size x y m) _ h1 λ e e2 h2. through (neighbor s.neighbors e) _ h2 λ to e3 h3.
      through (lookup to l.nodes) _ h3
        λ t e4 h4. crossing-eq l active to x y m c s t e e1 e2 e3 e4 (cc h4)

-- Wherever a crossing leads, it leads to a screen of the layout, to a pixel of that screen, and to
-- the border opposite to the one that was crossed. The layout's screens have at least one pixel.
pub detect_crossing-lands :
    (l : ScreenLayout) (active : Name) (x y m : ℤ) (c : Crossing)
    → IsLayout l
    → detect_crossing l active x y m ≡ some c
    → (t : ScreenNode) × (lookup c.to l.nodes ≡ some t)
      × Inside t.size c.entry_x c.entry_y
      × OnBorder (opposite c.from_edge) t.size c.entry_x c.entry_y
detect_crossing-lands l active x y m c wf h =
    let k = detect_crossing-IsCrossing l active x y m c h in
    let t = k.target in
    let ok_t = wf c.to t k.in_layout in
    let p = entry_point c.from_edge k.source.size t.size x y in
    (
      t,
      k.in_layout,
      subst (λ (q : ℤ × ℤ). Inside t.size q.0 q.1) (sym k.entry)
          (entry_point-Inside c.from_edge k.source.size t.size x y ok_t),
      subst (λ (q : ℤ × ℤ). OnBorder (opposite c.from_edge) t.size q.0 q.1) (sym k.entry)
          (entry_point-OnBorder c.from_edge k.source.size t.size x y ok_t),
    )
