-- ===== src/Daemon/Hooks/Suppressed.antt =====
-- What crates/kvm-input/src/rdev_backend.rs does with an event, while crates/kvm-daemon/src/server.rs
-- sets its switch through the hooks.
use self_kvm.Common.{
  List, [], ◌∷◌, Option, none, some, Bool, false, ◌≡◌, refl, ◌∙◌, ap, if◌then◌else◌,
}
use self_kvm.Common.Map.{Name}
use self_kvm.Core.Layout.{ScreenLayout}
use self_kvm.Core.Server.{is_remote}
use self_kvm.Daemon.Server.{Effect, hook_grab, ServerEvent, start, run}
use self_kvm.Daemon.Server.Grabbing.{hooked, run-grab}
use self_kvm.Daemon.Hooks.{LiveHooks, new_switch, set, enabled, live_set_grab, play_live}
use self_kvm.Input.Rdev.{Float, Point, EventType, callback}

play_live-hooked :
    (h : LiveHooks) (es : List Effect) → (play_live h es).grab.on ≡ hooked h.grab.on es
unfolding play_live live_set_grab set
play_live-hooked h [] = refl
play_live-hooked h (hook_grab on ∷ es) = play_live-hooked (record { grab = record { on = on } }) es
play_live-hooked h (_ ∷ es) = play_live-hooked h es

-- The switch that the capture backend reads behind a run of the controller.
unfoldable pub switch_after : ScreenLayout → Name → List ServerEvent → Bool
unfolding enabled new_switch play_live
switch_after layout local_screen evs =
    enabled (play_live (record { grab = new_switch }) (run (start layout local_screen) evs).1).grab

-- Whatever has come to the controller from the start, the next event of the system is kept from the
-- local machine exactly if the cursor is on a remote screen.
pub callback-suppresses :
    (f : Float) (center lp : Option (Point f)) (ev : EventType f) (layout : ScreenLayout)
    (local_screen : Name) (evs : List ServerEvent)
    → (callback f center (switch_after layout local_screen evs) lp ev).1
      ≡ (if is_remote (run (start layout local_screen) evs).0.machine then none else some ev)
unfolding callback switch_after enabled new_switch
callback-suppresses f center lp ev layout local_screen evs =
    ap (λ (b : Bool). if b then none else some ev)
      (play_live-hooked (record { grab = record { on = false } })
          (run (start layout local_screen) evs).1
        ∙ run-grab layout local_screen evs)
