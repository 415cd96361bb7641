-- ===== src/Core/Server/Bounds.antt =====
-- The cursor and the active screen of crates/kvm-core/src/server.rs stay within the layout.
use self_kvm.Common.{
  Bool, true, false, not, ◌≡◌, refl, arith, some, ◌=l=◌, if◌then◌else◌, Bool-cases, inl, inr,
}
use mathlib.Core.Path.{subst}
use self_kvm.Common.Int.{ℤ, pos}
use self_kvm.Common.Map.{Name, lookup}
use self_kvm.Core.Layout.{Crossing, ScreenLayout, ScreenNode, clamp_to, sub_i32, detect_crossing}
use self_kvm.Core.Layout.Scale.{clamp_bounds, sub_one_bounds}
use self_kvm.Core.Layout.Crossings.{IsLayout, Inside, detect_crossing-lands}
use self_kvm.Core.Events.{LocalEvent, key_event}
use self_kvm.Core.Server.{
  ServerMachine, is_remote, track_modifiers, stay, cross, crossing_of, handle,
}
use self_kvm.Core.Server.Rule.{handle-rule}

-- The screens have pixels, and the local and the active screen are among them.
pub record IsPlaced (m : ServerMachine) : Type 0 where
  pub layout_ok : IsLayout m.layout
  pub home : ScreenNode
  pub home_in : lookup m.local_screen m.layout.nodes ≡ some home
  pub node : ScreenNode
  pub active_in : lookup m.active m.layout.nodes ≡ some node

-- While the cursor is on a remote screen, it is on a pixel of that screen.
abbrev pub CursorInside : ServerMachine → Type 0
CursorInside m =
    (n : ScreenNode)
    → is_remote m ≡ true
    → lookup m.active m.layout.nodes ≡ some n
    → Inside n.size m.cursor_x m.cursor_y

pub record IsSound (m : ServerMachine) : Type 0 where
  pub placed : IsPlaced m
  pub inside : CursorInside m

pub clamp_to-Inside :
    (l : ScreenLayout) (k : Name) (n : ScreenNode) (x y : ℤ)
    → IsLayout l
    → lookup k l.nodes ≡ some n
    → Inside n.size (clamp_to l k x y).0 (clamp_to l k x y).1
unfolding clamp_to
clamp_to-Inside l k n x y wf e =
    let h = wf k n e in
    let a = sub_one_bounds n.size.w h.w_i32 h.w_pos in
    let b = sub_one_bounds n.size.h h.h_i32 h.h_pos in
    let c = clamp_bounds x (pos 0) (sub_i32 n.size.w (pos 1)) a.0 in
    let d = clamp_bounds y (pos 0) (sub_i32 n.size.h (pos 1)) b.0 in
    rw (e, clamp_to) (c.0, omega arith, d.0, omega arith)

-- Only the layout and the names of the local and the active screen matter to `IsPlaced`.
abbrev with_cursor : ServerMachine → ℤ × ℤ → ServerMachine
with_cursor m p = record m { cursor_x = p.0; cursor_y = p.1 }

IsPlaced-with_cursor : (m : ServerMachine) (p : ℤ × ℤ) → IsPlaced m → IsPlaced (with_cursor m p)
IsPlaced-with_cursor m p h = record {
  layout_ok = h.layout_ok;
  home = h.home;
  home_in = h.home_in;
  node = h.node;
  active_in = h.active_in;
}

pub false_true {ℓ} : {b : Bool} {A : Type ℓ} → b ≡ false → b ≡ true → A
false_true p q = absurd (cc)

stay-IsSound : (m : ServerMachine) → IsPlaced m → IsSound (stay m).0
unfolding stay
stay-IsSound m h = elim (Bool-cases (is_remote m)) [
  | inl r ↦ rw r (record {
    placed = IsPlaced-with_cursor m (clamp_to m.layout m.active m.cursor_x m.cursor_y) h;
    inside = λ n q e. clamp_to-Inside m.layout m.active n m.cursor_x m.cursor_y h.layout_ok e;
  })
  | inr r ↦ rw r (record { placed = h; inside = λ n q e. false_true r q })
]

pub crossing_of-detect :
    (m : ServerMachine) (c : Crossing)
    → crossing_of m ≡ some c
    → detect_crossing m.layout m.active m.cursor_x m.cursor_y (if is_remote m then pos 0 else pos 1)
      ≡ some c
unfolding crossing_of
crossing_of-detect m c e = ground arith

-- Which pixel a screen's node is asked for does not depend on how it was looked up.
same_node :
    (l : ScreenLayout) (k : Name) (n t : ScreenNode) (x y : ℤ)
    → lookup k l.nodes ≡ some t
    → lookup k l.nodes ≡ some n
    → Inside t.size x y
    → Inside n.size x y
same_node l k n t x y p q h =
    let e : t ≡ n = cc in subst (λ (z : ScreenNode). Inside z.size x y) e h

crossed-IsSound :
    (m m' : ServerMachine) (c : Crossing)
    → IsPlaced m
    → crossing_of m ≡ some c
    → m'.layout ≡ m.layout
    → m'.local_screen ≡ m.local_screen
    → m'.active ≡ c.to
    → (is_remote m' ≡ true → (m'.cursor_x ≡ c.entry_x) × (m'.cursor_y ≡ c.entry_y))
    → IsSound m'
crossed-IsSound m m' c h e el es ea at =
    let d = crossing_of-detect m c e in
    let (t, t_in, t_at, _) = detect_crossing-lands _ _ _ _ _ c h.layout_ok d in
    record {
      placed = record {
        layout_ok = rw el h.layout_ok;
        home = h.home;
        home_in = rw (el, es) h.home_in;
        node = t;
        active_in = rw (el, ea) t_in;
      };
      inside = λ n r q.
          let (ex, ey) = at r in
          rw (ex, ey)
            (same_node m.layout c.to n t c.entry_x c.entry_y t_in (rw (el, ea) at q) t_at);
    }

cross-IsSound :
    (m : ServerMachine) (c : Crossing) → IsPlaced m → crossing_of m ≡ some c → IsSound (cross m c).0
unfolding cross is_remote
cross-IsSound m c h e = elim (Bool-cases (c.to =l= m.local_screen)) [
  | inl q ↦ rw q (crossed-IsSound m _ c h e refl refl refl (λ r. false_true (home q) r))
  | inr q ↦ rw q (crossed-IsSound m _ c h e refl refl refl (λ r. (refl, refl)))
]
  where
    home : c.to =l= m.local_screen ≡ true → not (c.to =l= m.local_screen) ≡ false
    home q = rw q

track-IsSound : (m : ServerMachine) (ev : LocalEvent) → IsSound m → IsSound (track_modifiers m ev)
unfolding track_modifiers is_remote
track-IsSound m (key_event id mask button action) h = record {
  placed = record {
    layout_ok = h.placed.layout_ok;
    home = h.placed.home;
    home_in = h.placed.home_in;
    node = h.placed.node;
    active_in = h.placed.active_in;
  };
  inside = h.inside;
}
track-IsSound m _ h = h

-- On a layout whose screens have pixels, with the local and the active screen in it, every captured
-- event keeps the active screen in the layout and, while that screen is remote, the cursor on a
-- pixel of it.
pub handle-IsSound : (m : ServerMachine) (ev : LocalEvent) → IsSound m → IsSound (handle m ev).0
handle-IsSound m ev h =
    handle-rule IsSound IsPlaced (λ r. IsSound r.0) track-IsSound
      (λ k x y p. IsPlaced-with_cursor k (x, y) p.placed) (λ k p e. stay-IsSound k p) cross-IsSound
      (λ k p. p) (λ k msg p r i. p) m ev h
