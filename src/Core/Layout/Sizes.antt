-- ===== src/Core/Layout/Sizes.antt =====
-- `add_screen` and `link` of crates/kvm-core/src/layout.rs keep the pixels of the screens.
use self_kvm.Common.{
  ◌≡◌, sym, ◌∙◌, ◌⊎◌, Bool, true, false, Option, some, inl, inr, if◌then◌else◌, ◌=l=◌,
}
use self_kvm.Common.Map.{Name, lookup, lookup-insert}
use mathlib.Core.Path.{subst}
use self_kvm.Core.Layout.{
  Edge, ScreenSize, ScreenNode, ScreenLayout, add_screen, link, no_neighbors,
}
use self_kvm.Core.Layout.Links.{link-size}
use self_kvm.Core.Layout.Crossings.{IsLayout, IsScreen}

pub link-IsLayout :
    (l : ScreenLayout) (a b : Name) (e : Edge) → IsLayout l → IsLayout (link l a e b)
link-IsLayout l a b e h k n' q =
    let (n, r, s) = link-size l a b k e n' q in subst IsScreen (sym s) (h k n r)

pub add_screen-IsLayout :
    (l : ScreenLayout) (name : Name) (s : ScreenSize)
    → IsScreen s
    → IsLayout l
    → IsLayout (add_screen l name s)
unfolding add_screen
add_screen-IsLayout l name s p h k n q =
    elim (found (name =l= k) node (lookup k l.nodes) n
      (sym (lookup-insert name k node l.nodes) ∙ q)) [
        | inl e ↦ subst IsScreen (size_eq e) p
        | inr e ↦ h k n e
      ]
  where
    node : ScreenNode
    node = record { size = s; neighbors = no_neighbors }

    found :
        (b : Bool) (m : ScreenNode) (o : Option ScreenNode) (n' : ScreenNode)
        → (if b then some m else o) ≡ some n'
        → (some m ≡ some n') ⊎ (o ≡ some n')
    found true m o n' e = inl e
    found false m o n' e = inr e

    size_eq : {m n' : ScreenNode} → some m ≡ some n' → m.size ≡ n'.size
    size_eq e = cc
