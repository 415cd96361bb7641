-- ===== src/Core/Server/Routing.antt =====
-- Where `handle` of crates/kvm-core/src/server.rs sends input, and what the screen lock prevents.
use self_kvm.Common.{Bool, true, ◌≡◌, refl, sym, ◌∙◌, arith, none, some, All}
use self_kvm.Common.Map.{Name}
use self_kvm.Proto.Message.{is_input}
use self_kvm.Core.Layout.{Crossing}
use self_kvm.Core.Events.{LocalEvent, key_event}
use self_kvm.Core.Server.{
  ServerMachine, ServerAction, send, Handled, is_remote, track_modifiers, stay, cross, crossing_of,
  handle, send_active,
}
use self_kvm.Core.Server.Rule.{handle-rule, is_remote-at}

-- An input message goes to the screen `a`, and only where `r`, that the cursor is remote, holds.
abbrev pub IsRouted : Name → Bool → ServerAction → Type 0
IsRouted a r (send screen msg) = is_input msg ≡ true → (screen ≡ a) × (r ≡ true)
IsRouted a r _ = Unit {0}

-- The machine has the active screen `a`, and is remote as `r` says.
abbrev At : Name → Bool → ServerMachine → Type 0
At a r m = (m.active ≡ a) × (is_remote m ≡ r)

track-At :
    (a : Name) (r : Bool) (m : ServerMachine) (ev : LocalEvent)
    → At a r m
    → At a r (track_modifiers m ev)
unfolding track_modifiers is_remote
track-At a r m (key_event id mask button action) h = h
track-At a r m _ h = h

stay-IsRouted : (a : Name) (r : Bool) (m : ServerMachine) → At a r m → All (IsRouted a r) (stay m).1
unfolding stay is_remote
stay-IsRouted a r m h = ground arith

cross-IsRouted :
    (a : Name) (r : Bool) (m : ServerMachine) (c : Crossing)
    → At a r m
    → All (IsRouted a r) (cross m c).1
unfolding cross is_input
cross-IsRouted a r m c h = ground arith

-- Whatever is captured, an input message is sent only to the screen that was active before the event,
-- and only if that screen was remote.
pub handle-IsRouted :
    (m : ServerMachine) (ev : LocalEvent) → All (IsRouted m.active (is_remote m)) (handle m ev).1
unfolding send_active
handle-IsRouted m ev =
    let a = m.active in
    let r = is_remote m in
    handle-rule (At a r) (At a r) (λ q. All (IsRouted a r) q.1) (track-At a r)
      (λ k x y p. (p.0, is_remote-at k x y ∙ p.1)) (λ k p e. stay-IsRouted a r k p)
      (λ k c p e. cross-IsRouted a r k c p) (λ k p. tt)
      (λ k msg p q i. ((λ j. (p.0, sym p.1 ∙ q)), tt)) m ev (refl, refl)

-- An action that leaves the active screen, the grab and the real cursor alone.
abbrev pub KeepsScreen : ServerAction → Type 0
KeepsScreen (send screen msg) = is_input msg ≡ true
KeepsScreen _ = ⊥

abbrev Locked : Name → ServerMachine → Type 0
Locked a m = (m.active ≡ a) × (m.switch_locked ≡ true)

abbrev Pinned : Name → Handled → Type 0
Pinned a r = (r.0.active ≡ a) × All KeepsScreen r.1

locked-crossing_of : (m : ServerMachine) → m.switch_locked ≡ true → crossing_of m ≡ none
unfolding crossing_of
locked-crossing_of m h = rw h

stay-Pinned : (a : Name) (m : ServerMachine) → Locked a m → Pinned a (stay m)
unfolding stay is_input
stay-Pinned a m h = ground arith

track-Locked :
    (a : Name) (m : ServerMachine) (ev : LocalEvent) → Locked a m → Locked a (track_modifiers m ev)
unfolding track_modifiers
track-Locked a m (key_event id mask button action) h = h
track-Locked a m _ h = h

none_some {ℓ κ} : {A : Type ℓ} {B : Type κ} {x : A} → none ≡ some x → B
none_some e = absurd (cc)

-- While the screen lock is on, every event leaves the active screen as it is, and nothing but input
-- messages comes of it: no Enter, no Leave, no grab and no warp.
pub handle-locked :
    (m : ServerMachine) (ev : LocalEvent)
    → m.switch_locked ≡ true
    → ((handle m ev).0.active ≡ m.active) × All KeepsScreen (handle m ev).1
unfolding send_active
handle-locked m ev h =
    let a = m.active in
    handle-rule (Locked a) (Locked a) (Pinned a) (track-Locked a) (λ k x y p. p)
      (λ k p e. stay-Pinned a k p) (λ k c p e. none_some (sym (locked-crossing_of k p.1) ∙ e))
      (λ k p. (p.0, tt)) (λ k msg p r i. (p.0, (i, tt))) m ev (refl, h)
