-- ===== src/Daemon/Server/Places.antt =====
-- The controller of crates/kvm-daemon/src/server.rs keeps the machine within its layout.
use self_kvm.Common.{List, [], ◌∷◌, true, ◌≡◌, ◌≢◌, some, ◌=l=◌, Bool-cases, inl, inr}
use self_kvm.Common.Map.{Name, lookup}
use self_kvm.Core.Layout.{ScreenLayout, ScreenNode, screen_size}
use self_kvm.Core.Layout.Crossings.{IsScreen, IsLayout}
use self_kvm.Core.Server.{ServerMachine, is_remote}
use self_kvm.Core.Server.Bounds.{IsSound, handle-IsSound}
use self_kvm.Core.Server.Resize.{set_screen_size-IsSound, go_home-IsSound, new-IsSound}
use self_kvm.Daemon.Server.{
  Controller, ServerEvent, from_local, client_connected, client_disconnected, from_client,
  keep_alive_tick, clipboard_out, step, start, run,
}

-- A client that connects reports at least one pixel each way, and its screen is not the one that the
-- cursor is on.
abbrev pub IsSane : ServerMachine → ServerEvent → Type 0
IsSane m (client_connected screen w h outbound) =
    IsScreen (screen_size w h) × (is_remote m ≡ true → screen ≢ m.active)
IsSane m _ = Unit {0}

pub step-IsSound :
    (s : Controller) (ev : ServerEvent)
    → IsSound s.machine
    → IsSane s.machine ev
    → IsSound (step s ev).0.machine
unfolding step
step-IsSound s (from_local le) h k = handle-IsSound s.machine le h
step-IsSound s (client_connected screen w h' outbound) h k =
    set_screen_size-IsSound s.machine screen w h' h k.0 k.1
step-IsSound s (client_disconnected screen) h k = elim (Bool-cases (s.machine.active =l= screen)) [
  | inl e ↦ rw e (go_home-IsSound s.machine h)
  | inr e ↦ rw e h
]
step-IsSound s (from_client screen msg) h k = h
step-IsSound s keep_alive_tick h k = h
step-IsSound s (clipboard_out text) h k = h

-- Every connection in a list of events is sane when it comes.
abbrev pub AllSane : Controller → List ServerEvent → Type 0
AllSane s [] = Unit {0}
AllSane s (ev ∷ evs) = IsSane s.machine ev × AllSane (step s ev).0 evs

run-IsSound-from :
    (s : Controller) (evs : List ServerEvent)
    → IsSound s.machine
    → AllSane s evs
    → IsSound (run s evs).0.machine
unfolding run
run-IsSound-from s [] h k = h
run-IsSound-from s (ev ∷ evs) h k = run-IsSound-from (step s ev).0 evs (step-IsSound s ev h k.0) k.1

-- From the start on a layout whose screens have pixels and which has the local screen, whatever comes,
-- the active screen is one of the layout and a remote cursor on a pixel of it, as long as every client
-- that connects reports at least one pixel each way and is not that of the screen the cursor is on.
pub run-IsSound :
    (layout : ScreenLayout) (local_screen : Name) (n : ScreenNode) (evs : List ServerEvent)
    → IsLayout layout
    → lookup local_screen layout.nodes ≡ some n
    → AllSane (start layout local_screen) evs
    → IsSound (run (start layout local_screen) evs).0.machine
run-IsSound layout local_screen n evs wf e k =
    run-IsSound-from (start layout local_screen) evs
      (unfold start in new-IsSound layout local_screen n wf e) k
