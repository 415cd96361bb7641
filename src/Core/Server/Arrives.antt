-- ===== src/Core/Server/Arrives.antt =====
-- A cursor that is pushed to the left in crates/kvm-core/src/server.rs gets to the screen on the left.
use self_kvm.Common.{
  ◌<◌, ℕ, zero, suc, List, [], ◌∷◌, true, false, ◌≡◌, refl, ◌∙◌, arith, none, some,
}
use self_kvm.Common.Int.{ℤ, pos, negsuc}
use mathlib.Core.Path.{subst}
use self_kvm.Common.Map.{Name, lookup}
use self_kvm.Core.Layout.{
  left, ScreenNode, Crossing, neighbor, entry_point, crossing_to, detect_crossing,
}
use self_kvm.Core.Layout.Crossings.{IsScreen, IsLayout, Inside, edge_at-none, detect_crossing-none}
use self_kvm.Core.Events.{LocalEvent}
use self_kvm.Core.Server.{ServerMachine, is_remote, handle, crossing_of, settle, stay}
use self_kvm.Core.Server.Rule.{is_remote-at}
use self_kvm.Core.Server.Bounds.{IsSound}
use self_kvm.Core.Session.{server_run}
use self_kvm.Core.Server.Push.{
  push, shifted, handle-push_at, step_left, step_out, step_same, minus_zero, cross-active,
  stay-still, clamp_to-id, detect_left, cursor_fits,
}

-- The cursor is on a remote screen, `x` pixels from its left border, with another screen behind that.
record IsOff (m : ServerMachine) (k : Name) (x : ℕ) : Type 0 where
  remote : is_remote m ≡ true
  unlocked : m.switch_locked ≡ false
  layout_ok : IsLayout m.layout
  node : ScreenNode
  active_in : lookup m.active m.layout.nodes ≡ some node
  beside : neighbor node.neighbors left ≡ some k
  goal : ScreenNode
  goal_in : lookup k m.layout.nodes ≡ some goal
  at_x : m.cursor_x ≡ pos x
  inside : Inside node.size m.cursor_x m.cursor_y

-- The machine with its cursor `x` pixels from the left.
abbrev moved_to : ServerMachine → ℤ → ServerMachine
moved_to m x = record m { cursor_x = x; cursor_y = m.cursor_y }

module _ (m : ServerMachine) (k : Name) (x : ℕ) (h : IsOff m k x) where
  size_ok : IsScreen h.node.size
  size_ok = h.layout_ok m.active h.node h.active_in

  pixel_at : Inside h.node.size (pos x) m.cursor_y
  pixel_at = subst (λ z. Inside h.node.size z m.cursor_y) h.at_x h.inside

  y_same : (shifted m).cursor_y ≡ m.cursor_y
  y_same =
      step_same m.cursor_y
        (cursor_fits m.cursor_y h.node.size.h size_ok.h_i32 pixel_at.2 pixel_at.3)

  remote_at : (z : ℤ) → is_remote (moved_to m z) ≡ true
  remote_at z = is_remote-at m z m.cursor_y ∙ h.remote

  crossing-detect :
      (z : ℤ) → crossing_of (moved_to m z) ≡ detect_crossing m.layout m.active z m.cursor_y (pos 0)
  unfolding crossing_of
  crossing-detect z = rw (h.unlocked, remote_at z) refl

-- Not yet at the border.
module _ (m : ServerMachine) (k : Name) (x : ℕ) (h : IsOff m k (suc x)) where
  x_bound : suc x < 2147483648
  x_bound =
      let r = pixel_at m k (suc x) h in let s = size_ok m k (suc x) h in omega (arith, r.1, s.w_i32)

  shifted-in : shifted m ≡ moved_to m (pos x)
  shifted-in = rw (h.at_x, step_left x x_bound, y_same m k (suc x) h) refl

  pixel_next : Inside h.node.size (pos x) m.cursor_y
  pixel_next = let r = pixel_at m k (suc x) h in (omega arith, omega (arith, r.1), r.2, r.3)

  crossing-none : crossing_of (moved_to m (pos x)) ≡ none
  crossing-none =
      let r = pixel_next in
      crossing-detect m k (suc x) h (pos x)
      ∙ detect_crossing-none m.layout m.active h.node (pos x) m.cursor_y (pos 0) h.active_in (
          edge_at-none h.node.size (pos x) m.cursor_y 0 (size_ok m k (suc x) h) (omega arith) r.0
            (minus_zero (pos x) h.node.size.w r.1) r.2 (minus_zero m.cursor_y h.node.size.h r.3))

  stay-same : (stay (moved_to m (pos x))).0 ≡ moved_to m (pos x)
  stay-same = stay-still (moved_to m (pos x)) (
      clamp_to-id m.layout m.active h.node (pos x) m.cursor_y h.active_in (size_ok m k (suc x) h)
        pixel_next)

  push-in : (handle m push).0 ≡ moved_to m (pos x)
  push-in =
      rw (handle-push_at m (moved_to m (pos x)) h.remote shifted-in, crossing-none, settle)
        stay-same

  -- One pixel less.
  step-IsOff : IsOff (handle m push).0 k x
  step-IsOff = rw push-in (record {
    remote = remote_at m k (suc x) h (pos x);
    unlocked = h.unlocked;
    layout_ok = h.layout_ok;
    node = h.node;
    active_in = h.active_in;
    beside = h.beside;
    goal = h.goal;
    goal_in = h.goal_in;
    at_x = refl;
    inside = pixel_next;
  })

-- At the border, the next event crosses it.
module _ (m : ServerMachine) (k : Name) (h : IsOff m k 0) where
  shifted-out : shifted m ≡ moved_to m (negsuc 0)
  shifted-out = rw (h.at_x, step_out, y_same m k 0 h) refl

  crossing-left : (c : Crossing) × (crossing_of (moved_to m (negsuc 0)) ≡ some c) × (c.to ≡ k)
  crossing-left = (
    crossing_to k left (entry_point left h.node.size h.goal.size (negsuc 0) m.cursor_y),
    crossing-detect m k 0 h (negsuc 0)
        ∙ detect_left m.layout m.active k h.node h.goal m.cursor_y h.active_in h.beside h.goal_in,
    refl,
  )

  step-crosses : (handle m push).0.active ≡ k
  step-crosses =
      let (c, e, q) = crossing-left in
      rw (handle-push_at m (moved_to m (negsuc 0)) h.remote shifted-out, e, settle)
        (cross-active (moved_to m (negsuc 0)) c ∙ q)

-- `n` pushes, one after the other.
unfoldable pub pushes : ℕ → List LocalEvent
pushes zero = []
pushes (suc n) = push ∷ pushes n

pushes-arrive :
    (x : ℕ) (m : ServerMachine) (k : Name)
    → IsOff m k x
    → (server_run m (pushes (suc x))).active ≡ k
unfolding pushes server_run
pushes-arrive zero m k h = step-crosses m k h
pushes-arrive (suc x) m k h = pushes-arrive x (handle m push).0 k (step-IsOff m k x h)

-- A cursor on a remote screen that is pushed to the left gets to the screen on the left: when the
-- machine is sound and not locked, and the active screen has a neighbour of the layout at its left,
-- then, `x` pixels from the border, it is on that neighbour behind `x + 1` events of one pixel each.
pub pushes-cross :
    (m : ServerMachine) (k : Name) (n t : ScreenNode) (x : ℕ)
    → IsSound m
    → is_remote m ≡ true
    → m.switch_locked ≡ false
    → lookup m.active m.layout.nodes ≡ some n
    → neighbor n.neighbors left ≡ some k
    → lookup k m.layout.nodes ≡ some t
    → m.cursor_x ≡ pos x
    → (server_run m (pushes (suc x))).active ≡ k
pushes-cross m k n t x sound r u a b c d = pushes-arrive x m k (record {
  remote = r;
  unlocked = u;
  layout_ok = sound.placed.layout_ok;
  node = n;
  active_in = a;
  beside = b;
  goal = t;
  goal_in = c;
  at_x = d;
  inside = sound.inside n r a;
})
