-- ===== src/Core/Server/Resize.antt =====
-- Sizes that clients report, and the way home: `new`, `set_screen_size` and `go_home` of
-- crates/kvm-core/src/server.rs keep the machine within its layout.
use self_kvm.Common.{
  true, false, not, ◌≡◌, ◌≢◌, sym, arith, some, ◌=l=◌, =l=_refl, =l=_iff, Bool-cases, inl, inr, ◌⊎◌,
}
use mathlib.Core.Path.{subst}
use self_kvm.Common.Int.{ℤ}
use self_kvm.Common.Map.{Name, Map, lookup, modify, lookup-modify}
use self_kvm.Core.Layout.{ScreenLayout, ScreenNode, screen_size}
use self_kvm.Core.Layout.Crossings.{IsScreen, IsLayout}
use self_kvm.Core.Server.{ServerMachine, is_remote, set_screen_size, go_home, new}
use self_kvm.Core.Server.Bounds.{IsPlaced, IsSound, false_true}

abbrev pub resized : ℤ → ℤ → ScreenNode → ScreenNode
resized w h n = record n { size = screen_size w h }

-- A node after the change has the size that it had, or the new one.
lookup-resized :
    (nodes : Map ScreenNode) (screen k : Name) (w h : ℤ) (n : ScreenNode)
    → lookup k (modify screen (resized w h) nodes) ≡ some n
    → ((screen ≡ k) × (n.size ≡ screen_size w h)) ⊎ ((screen ≢ k) × (lookup k nodes ≡ some n))
lookup-resized nodes screen k w h n e =
    ground (arith, lookup-modify screen k (resized w h) nodes, =l=_iff screen k)

pub found-resized :
    (nodes : Map ScreenNode) (screen k : Name) (w h : ℤ) (n : ScreenNode)
    → lookup k nodes ≡ some n
    → (n' : ScreenNode) × (lookup k (modify screen (resized w h) nodes) ≡ some n')
found-resized nodes screen k w h n e = elim (Bool-cases (screen =l= k)) [
  | inl q ↦ (resized w h n, rw (lookup-modify, q, e))
  | inr q ↦ (n, rw (lookup-modify, q, e))
]

pub resized-IsLayout :
    (l : ScreenLayout) (screen : Name) (w h : ℤ)
    → IsLayout l
    → IsScreen (screen_size w h)
    → IsLayout (record l { nodes = modify screen (resized w h) l.nodes })
resized-IsLayout l screen w h wf new_ok k n e = elim (lookup-resized l.nodes screen k w h n e) [
  | inl (q, s) ↦ subst IsScreen (sym s) new_ok
  | inr (q, s) ↦ wf k n s
]

set_screen_size-IsPlaced :
    (m : ServerMachine) (screen : Name) (w h : ℤ)
    → IsPlaced m
    → IsScreen (screen_size w h)
    → IsPlaced (set_screen_size m screen w h)
unfolding set_screen_size
set_screen_size-IsPlaced m screen w h p new_ok =
    let a = found-resized m.layout.nodes screen m.local_screen w h p.home p.home_in in
    let b = found-resized m.layout.nodes screen m.active w h p.node p.active_in in
    record {
      layout_ok = resized-IsLayout m.layout screen w h p.layout_ok new_ok;
      home = a.0;
      home_in = a.1;
      node = b.0;
      active_in = b.1;
    }

-- Adopting a size of at least one pixel each way keeps the machine within its layout, if the cursor is
-- not on the very screen that changes.
pub set_screen_size-IsSound :
    (m : ServerMachine) (screen : Name) (w h : ℤ)
    → IsSound m
    → IsScreen (screen_size w h)
    → (is_remote m ≡ true → screen ≢ m.active)
    → IsSound (set_screen_size m screen w h)
unfolding set_screen_size is_remote
set_screen_size-IsSound m screen w h s new_ok apart = record {
  placed = set_screen_size-IsPlaced m screen w h s.placed new_ok;
  inside = λ n r e. elim (lookup-resized m.layout.nodes screen m.active w h n e) [
    | inl (q, _) ↦ absurd (apart r q)
    | inr (q, z) ↦ s.inside n r z
  ];
}

not_away : (k : Name) → not (k =l= k) ≡ false
not_away k = rw (=l=_refl k)

pub go_home-IsSound : (m : ServerMachine) → IsSound m → IsSound (go_home m).0
unfolding go_home is_remote
go_home-IsSound m s = elim (Bool-cases (m.active =l= m.local_screen)) [
  | inl e ↦ rw e s
  | inr e ↦ rw e (record {
    placed = record {
      layout_ok = s.placed.layout_ok;
      home = s.placed.home;
      home_in = s.placed.home_in;
      node = s.placed.home;
      active_in = s.placed.home_in;
    };
    inside = λ n r z. false_true (not_away m.local_screen) r;
  })
]

-- A new machine is within a layout that has its local screen.
pub new-IsSound :
    (l : ScreenLayout) (local_screen : Name) (n : ScreenNode)
    → IsLayout l
    → lookup local_screen l.nodes ≡ some n
    → IsSound (new l local_screen)
unfolding new is_remote
new-IsSound l local_screen n wf e = record {
  placed = record { layout_ok = wf; home = n; home_in = e; node = n; active_in = e };
  inside = λ n r z. false_true (not_away local_screen) r;
}
