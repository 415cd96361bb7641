-- ===== src/Core/Server/Grab.antt =====
-- The input grab of crates/kvm-core/src/server.rs follows the active screen.
use self_kvm.Common.{List, [], ◌∷◌, Bool, true, false, ◌≡◌, arith, =l=_refl, sym, ◌∙◌}
use self_kvm.Core.Layout.{Crossing, ScreenLayout}
use self_kvm.Core.Events.{LocalEvent}
use self_kvm.Core.Server.Rule.{handle-rule, is_remote-at, is_remote-track}
use self_kvm.Core.Server.{
  ServerAction, set_grab, ServerMachine, is_remote, set_layout, go_home, track_modifiers, stay,
  cross, handle, send_active, Handled,
}

-- Whether local input is grabbed once the runtime has carried out the actions.
abbrev pub grab_after : Bool → List ServerAction → Bool
grab_after g [] = g
grab_after g (set_grab on ∷ as') = grab_after on as'
grab_after g (_ ∷ as') = grab_after g as'

-- The grab is on exactly while the cursor is on a remote screen.
abbrev pub GrabAgrees : Bool → ServerMachine → Type 0
GrabAgrees g m = g ≡ is_remote m

stay-grab :
    (g : Bool) (m : ServerMachine)
    → GrabAgrees g m
    → GrabAgrees (grab_after g (stay m).1) (stay m).0
unfolding stay
stay-grab g m h = ground arith

cross-grab :
    (g : Bool) (m : ServerMachine) (c : Crossing)
    → GrabAgrees g m
    → GrabAgrees (grab_after g (cross m c).1) (cross m c).0
unfolding cross is_remote
cross-grab g m c h = ground arith

abbrev After : Bool → Handled → Type 0
After g r = GrabAgrees (grab_after g r.1) r.0

track-grab :
    (g : Bool) (m : ServerMachine) (ev : LocalEvent)
    → GrabAgrees g m
    → GrabAgrees g (track_modifiers m ev)
track-grab g m ev h = h ∙ sym (is_remote-track m ev)

-- If the grab is on exactly while the cursor is on a remote screen, this is so again after every
-- captured event, once its actions are carried out.
pub handle-grab :
    (g : Bool) (m : ServerMachine) (ev : LocalEvent)
    → GrabAgrees g m
    → GrabAgrees (grab_after g (handle m ev).1) (handle m ev).0
unfolding send_active
handle-grab g m ev h =
    handle-rule (GrabAgrees g) (GrabAgrees g) (After g) (track-grab g)
      (λ k x y p. p ∙ sym (is_remote-at k x y)) (λ k p e. stay-grab g k p)
      (λ k c p e. cross-grab g k c p) (λ k p. p) (λ k msg p r i. p) m ev h

-- If the grab is on exactly while the cursor is on a remote screen, this is so again after `go_home`,
-- which leaves the machine local whatever it was.
pub go_home-grab :
    (g : Bool) (m : ServerMachine)
    → GrabAgrees g m
    → GrabAgrees (grab_after g (go_home m).1) (go_home m).0 × (is_remote (go_home m).0 ≡ false)
unfolding go_home
go_home-grab g m h = ground (arith, =l=_refl m.local_screen)

-- Replacing the layout of a remote machine makes it local without an action, and a later `go_home`
-- then finds nothing to do: a grab that was on stays on.
pub set_layout-strands :
    (g : Bool) (m : ServerMachine) (l : ScreenLayout)
    → GrabAgrees g m
    → is_remote m ≡ true
    → (is_remote (set_layout m l) ≡ false) × (grab_after g (go_home (set_layout m l)).1 ≡ true)
unfolding go_home set_layout
set_layout-strands g m l h r = ground (arith, =l=_refl m.local_screen)
