-- ===== src/Core/Server/Home.antt =====
-- Coming home in crates/kvm-core/src/server.rs: the cursor does not bounce.
use self_kvm.Common.{
  List, [], ◌∷◌, ◌++◌, Bool, refl, if◌then◌else◌, true, false, ◌≡◌, arith, none, some, ◌=l=◌,
  =l=→eq, Bool-cases, inl, inr,
}
use self_kvm.Common.Int.{ℤ, pos, ◌≤ℤ◌, ◌<ℤ◌, ◌-ℤ◌, int_laws, max_ℤ, IsI32}
use self_kvm.Common.Map.{Name, lookup}
use self_kvm.Core.Layout.{Crossing, ScreenNode, ScreenSize, size_of, sub_i32}
use self_kvm.Core.Layout.Scale.{sub_i32-pos}
use self_kvm.Core.Layout.Crossings.{IsScreen, edge_at-none, detect_crossing-none}
use self_kvm.Core.Events.{LocalEvent, motion_abs, key_event}
use self_kvm.Proto.Message.{leave}
use self_kvm.Core.Server.Rule.{handle-rule}
use self_kvm.Core.Server.Bounds.{false_true}
use self_kvm.Core.Server.{
  ServerMachine, Handled, ServerAction, send, set_grab, warp_cursor, active_changed, is_remote,
  track_modifiers, stay, cross, crossing_of, try_cross, handle, handle_local, inset_to_local,
  inset_in, clamp_std,
}

-- At least four pixels each way: the inset then lies strictly between the borders.
abbrev pub IsRoomy : ScreenSize → Type 0
IsRoomy s = IsScreen s × (pos 4 ≤ℤ s.w) × (pos 4 ≤ℤ s.h)

inset_axis :
    (w x : ℤ)
    → sub_i32 w (pos 1) ≡ w -ℤ pos 1
    → sub_i32 (w -ℤ pos 1) (pos 2) ≡ w -ℤ pos 1 -ℤ pos 2
    → pos 4 ≤ℤ w
    → (pos 1 ≤ℤ clamp_std x (pos 2) (max_ℤ (sub_i32 (sub_i32 w (pos 1)) (pos 2)) (pos 2)))
      × (clamp_std x (pos 2) (max_ℤ (sub_i32 (sub_i32 w (pos 1)) (pos 2)) (pos 2)) <ℤ w -ℤ pos 1)
inset_axis w x a b h =
    rw (a, b) (shut (w -ℤ pos 1) (w -ℤ pos 1 -ℤ pos 2) (omega int_laws) (omega int_laws))
  where
    shut :
        (u v : ℤ)
        → pos 3 ≤ℤ u
        → v <ℤ u
        → (pos 1 ≤ℤ clamp_std x (pos 2) (max_ℤ v (pos 2)))
          × (clamp_std x (pos 2) (max_ℤ v (pos 2)) <ℤ u)
    shut u v p q = unfold max_ℤ in ground arith

-- At least one pixel away from every border.
abbrev pub OffBorders : ScreenSize → ℤ × ℤ → Type 0
OffBorders s p = (pos 1 ≤ℤ p.0) × (p.0 <ℤ s.w -ℤ pos 1) × (pos 1 ≤ℤ p.1) × (p.1 <ℤ s.h -ℤ pos 1)

-- Where the runtime is asked to put the cursor of the local machine, in order.
abbrev pub warps : List ServerAction → List (ℤ × ℤ)
warps [] = []
warps (warp_cursor x y ∷ as') = (x, y) ∷ warps as'
warps (_ ∷ as') = warps as'

is_local : (m : ServerMachine) → is_remote m ≡ false → m.active ≡ m.local_screen
unfolding is_remote
is_local m r = =l=→eq m.active m.local_screen (ground arith)

module _ (n : ScreenNode) (roomy : IsRoomy n.size) where
  -- The local screen has the node `n`.
  abbrev HomeIs : ServerMachine → Type 0
  HomeIs m = lookup m.local_screen m.layout.nodes ≡ some n

  abbrev Settled : ServerMachine → Type 0
  Settled m = HomeIs m × OffBorders n.size (m.cursor_x, m.cursor_y)

  abbrev Away : ServerMachine → Type 0
  Away m = HomeIs m × (is_remote m ≡ true)

  abbrev SettledAtHome : Handled → Type 0
  SettledAtHome r =
      is_remote r.0 ≡ false → Settled r.0 × (warps r.1 ≡ (r.0.cursor_x, r.0.cursor_y) ∷ [])

  exact :
      (w : ℤ)
      → IsI32 w
      → pos 4 ≤ℤ w
      → (sub_i32 w (pos 1) ≡ w -ℤ pos 1) × (sub_i32 (w -ℤ pos 1) (pos 2) ≡ w -ℤ pos 1 -ℤ pos 2)
  unfolding ◌-ℤ◌
  exact w h k = (
    sub_i32-pos w 1 h (omega arith) (omega arith),
    sub_i32-pos (w -ℤ pos 1) 2 (ground arith) (ground arith) (omega arith),
  )

  inset-OffBorders :
      (m : ServerMachine) (x y : ℤ) → HomeIs m → OffBorders n.size (inset_to_local m x y)
  unfolding inset_to_local size_of
  inset-OffBorders m x y h =
      let (a, b) = exact n.size.w roomy.0.w_i32 roomy.1 in
      let (c, d) = exact n.size.h roomy.0.h_i32 roomy.2 in
      let (p, q) = inset_axis n.size.w x a b roomy.1 in
      let (u, v) = inset_axis n.size.h y c d roomy.2 in rw (h, inset_in) (p, q, u, v)

  one_warp :
      (b : Bool) (m : ServerMachine) (p : ℤ × ℤ) (c : Name)
      → warps (
          (if b then [] else send m.active leave ∷ [])
          ++ (set_grab false ∷ warp_cursor p.0 p.1 ∷ active_changed c ∷ []))
        ≡ p ∷ []
  one_warp true m p c = refl
  one_warp false m p c = refl

  cross-settles : (m : ServerMachine) (c : Crossing) → Away m → SettledAtHome (cross m c)
  unfolding cross is_remote
  cross-settles m c h = elim (Bool-cases (c.to =l= m.local_screen)) [
    | inl q ↦ rw q (λ r. (
      (h.0, inset-OffBorders m c.entry_x c.entry_y h.0),
      one_warp (m.active =l= m.local_screen) m _ _,
    ))
    | inr q ↦ rw q (λ r. false_true r (rw q))
  ]

  stay-settles : (m : ServerMachine) → Away m → SettledAtHome (stay m)
  unfolding stay is_remote
  stay-settles m h r = false_true r (rw h.1 h.1)

  track-Away : (m : ServerMachine) (ev : LocalEvent) → Away m → Away (track_modifiers m ev)
  unfolding track_modifiers is_remote
  track-Away m (key_event id mask button action) h = h
  track-Away m _ h = h

  handle-settles : (m : ServerMachine) (ev : LocalEvent) → Away m → SettledAtHome (handle m ev)
  unfolding is_remote
  handle-settles m ev h =
      handle-rule Away Away SettledAtHome track-Away (λ k x y p. p) (λ k p e. stay-settles k p)
        (λ k c p e. cross-settles k c p) (λ k p r. false_true r p.1)
        (λ k msg p r i q. false_true q p.1) m ev h

  -- Off the borders the local cursor crosses nothing.
  Settled-crossing_of : (m : ServerMachine) → is_remote m ≡ false → Settled m → crossing_of m ≡ none
  unfolding crossing_of
  Settled-crossing_of m r h = elim (Bool-cases m.switch_locked) [
    | inl e ↦ rw e
    | inr e ↦
        rw (e, r)
          (detect_crossing-none m.layout m.active n m.cursor_x m.cursor_y (pos 1)
            (rw (is_local m r) h.0)
            (edge_at-none n.size m.cursor_x m.cursor_y 1 roomy.0 (omega arith) h.1.0 h.1.1 h.1.2
              h.1.3))
  ]

  Settled-rests :
      (m : ServerMachine)
      → is_remote m ≡ false
      → Settled m
      → handle m (motion_abs m.cursor_x m.cursor_y) ≡ (m, [])
  unfolding handle handle_local try_cross stay track_modifiers
  Settled-rests m r h = rw (r, Settled-crossing_of m r h, r)

  -- When the cursor comes home from a remote screen, onto a local screen of at least four pixels each
  -- way, the runtime is asked to warp the cursor once; and an absolute motion that reports the position
  -- of that warp changes nothing and asks for nothing: the cursor does not bounce back over the edge it
  -- came in by.
  pub handle-rests_home :
      (m : ServerMachine) (ev : LocalEvent)
      → Away m
      → is_remote (handle m ev).0 ≡ false
      → (x : ℤ) × (y : ℤ) × (warps (handle m ev).1 ≡ (x, y) ∷ [])
        × (handle (handle m ev).0 (motion_abs x y) ≡ ((handle m ev).0, []))
  handle-rests_home m ev h r =
      let m' = (handle m ev).0 in
      let (settled, warped) = handle-settles m ev h r in
      (m'.cursor_x, m'.cursor_y, warped, Settled-rests m' r settled)
