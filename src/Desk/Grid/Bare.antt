-- ===== src/Desk/Grid/Bare.antt =====
-- The screens that `build_layout` of src-tauri/src/lib.rs adds, before it links them.
use self_kvm.Common.{
  List, [], ◌∷◌, ◌≡◌, refl, Bool, true, false, Option, none, some, if◌then◌else◌, ◌=l=◌, =l=_refl,
}
use self_kvm.Common.Map.{Name, lookup, lookup-insert}
use self_kvm.Core.Layout.{
  Edge, left, right, top, bottom, ScreenSize, ScreenNode, ScreenLayout, no_neighbors, neighbor,
  add_screen, new_layout,
}
use self_kvm.Core.Layout.Links.{next_to, side}
use self_kvm.Desk.Grid.{ScreenDto, add_all}
use mathlib.Core.List.{Memᴰ}

abbrev pub IsPresent : ScreenLayout → Name → Type 0
IsPresent l k = (n : ScreenNode) × (lookup k l.nodes ≡ some n)

abbrev IsBare : ScreenLayout → Type 0
IsBare l = (k : Name) (e : Edge) → next_to l k e ≡ none

bare : ScreenSize → ScreenNode
bare s = record { size = s; neighbors = no_neighbors }

bare-side : (s : ScreenSize) (e : Edge) → neighbor (bare s).neighbors e ≡ none
unfolding bare
bare-side s left = refl
bare-side s right = refl
bare-side s top = refl
bare-side s bottom = refl

bare_or :
    (p : Bool) (s : ScreenSize) (o : Option ScreenNode) (e : Edge)
    → side e o ≡ none
    → side e (if p then some (bare s) else o) ≡ none
bare_or true s o e h = bare-side s e
bare_or false s o e h = h

add_screen-IsBare :
    (l : ScreenLayout) (name : Name) (s : ScreenSize) → IsBare l → IsBare (add_screen l name s)
unfolding add_screen bare
add_screen-IsBare l name s h k e =
    rw (lookup-insert name k (bare s) l.nodes) (bare_or (name =l= k) s (lookup k l.nodes) e (h k e))

found_or :
    (p : Bool) (m n : ScreenNode) → (x : ScreenNode) × ((if p then some m else some n) ≡ some x)
found_or true m n = (m, refl)
found_or false m n = (n, refl)

add_screen-IsPresent :
    (l : ScreenLayout) (name k : Name) (s : ScreenSize)
    → IsPresent l k
    → IsPresent (add_screen l name s) k
unfolding add_screen bare
add_screen-IsPresent l name k s (n, h) =
    rw (lookup-insert name k (bare s) l.nodes, h) (found_or (name =l= k) (bare s) n)

add_screen-IsPresent_self :
    (l : ScreenLayout) (name : Name) (s : ScreenSize) → IsPresent (add_screen l name s) name
unfolding add_screen bare
add_screen-IsPresent_self l name s =
    (bare s, rw (lookup-insert name name (bare s) l.nodes, =l=_refl name))

add_all-IsBare : (ss : List ScreenDto) (l : ScreenLayout) → IsBare l → IsBare (add_all ss l)
unfolding add_all
add_all-IsBare [] l h = h
add_all-IsBare (s ∷ ss) l h = add_all-IsBare ss _ (add_screen-IsBare l s.name _ h)

add_all-IsPresent :
    (ss : List ScreenDto) (l : ScreenLayout) (k : Name) → IsPresent l k → IsPresent (add_all ss l) k
unfolding add_all
add_all-IsPresent [] l k h = h
add_all-IsPresent (s ∷ ss) l k h = add_all-IsPresent ss _ k (add_screen-IsPresent l s.name k _ h)

-- Every screen is there.
pub add_all-IsPresent_each :
    (ss : List ScreenDto) (l : ScreenLayout) (s : ScreenDto)
    → Memᴰ s ss
    → IsPresent (add_all ss l) s.name
unfolding add_all
add_all-IsPresent_each [] l s m = elim m [ ]
add_all-IsPresent_each (t ∷ ss) l s (Memᴰ.head e) =
    rw e (add_all-IsPresent ss _ t.name (add_screen-IsPresent_self l t.name _))
add_all-IsPresent_each (t ∷ ss) l s (Memᴰ.tail m) = add_all-IsPresent_each ss _ s m

-- No screen has a neighbour yet.
pub add_all-next_to :
    (ss : List ScreenDto) (k : Name) (e : Edge) → next_to (add_all ss new_layout) k e ≡ none
add_all-next_to ss k e = add_all-IsBare ss new_layout (λ j f. refl) k e
