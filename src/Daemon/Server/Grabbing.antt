-- ===== src/Daemon/Server/Grabbing.antt =====
-- The grab under the controller of crates/kvm-daemon/src/server.rs.
use self_kvm.Common.{
  List, [], ◌∷◌, ◌++◌, Bool, true, false, ◌≡◌, refl, sym, ◌∙◌, Option, none, some, ◌=l=◌, =l=_refl,
  Bool-cases, inl, inr,
}
use self_kvm.Common.Int.{ℤ}
use self_kvm.Common.Map.{Name, Map, lookup, remove, lookup-remove}
use self_kvm.Proto.Message.{Message, clipboard_data}
use self_kvm.Core.Layout.{ScreenLayout}
use self_kvm.Core.Server.{
  ServerAction, send, set_grab, warp_cursor, active_changed, ServerMachine, handle, go_home,
  set_screen_size, is_remote, new,
}
use self_kvm.Core.Server.Grab.{grab_after, GrabAgrees, handle-grab, go_home-grab}
use self_kvm.Daemon.Server.{
  Outbound, Effect, hook_grab, Controller, queue_to, dispatch, dispatch_all, broadcast, clip_effect,
  ServerEvent, from_local, client_connected, client_disconnected, from_client, keep_alive_tick,
  clipboard_out, step, start, run,
}

-- Whether local input is grabbed after the calls of the hooks.
abbrev pub hooked : Bool → List Effect → Bool
hooked g [] = g
hooked g (hook_grab on ∷ es) = hooked on es
hooked g (_ ∷ es) = hooked g es

hooked-append : (g : Bool) (es fs : List Effect) → hooked g (es ++ fs) ≡ hooked (hooked g es) fs
hooked-append g [] fs = refl
hooked-append g (hook_grab on ∷ es) fs = hooked-append on es fs
hooked-append g (_ ∷ es) fs = hooked-append g es fs

after_dispatch : Bool → ServerAction → Bool
after_dispatch g a = grab_after g (a ∷ [])

hooked-queue_to : (g : Bool) (tx : Option Outbound) (msg : Message) → hooked g (queue_to tx msg) ≡ g
hooked-queue_to g none msg = refl
hooked-queue_to g (some tx) msg = refl

hooked-dispatch_all :
    (g : Bool) (clients : Map Outbound) (as' : List ServerAction)
    → hooked g (dispatch_all clients as') ≡ grab_after g as'
unfolding dispatch
hooked-dispatch_all g clients [] = refl
hooked-dispatch_all g clients (send screen msg ∷ as') =
    hooked-append g (queue_to (lookup screen clients) msg) (dispatch_all clients as')
    ∙ rw (hooked-queue_to g (lookup screen clients) msg) (hooked-dispatch_all g clients as')
hooked-dispatch_all g clients (set_grab on ∷ as') = hooked-dispatch_all on clients as'
hooked-dispatch_all g clients (warp_cursor x y ∷ as') = hooked-dispatch_all g clients as'
hooked-dispatch_all g clients (active_changed screen ∷ as') = hooked-dispatch_all g clients as'

hooked-broadcast :
    (g : Bool) (clients : Map Outbound) (msg : Message) → hooked g (broadcast clients msg) ≡ g
hooked-broadcast g [] msg = refl
hooked-broadcast g ((screen, tx) ∷ clients) msg = hooked-broadcast g clients msg

hooked-clip_effect : (g : Bool) (msg : Message) → hooked g (clip_effect msg) ≡ g
hooked-clip_effect g (clipboard_data id seq mark bytes) = refl
hooked-clip_effect g _ = refl

is_remote-set_screen_size :
    (m : ServerMachine) (screen : Name) (w h : ℤ)
    → is_remote (set_screen_size m screen w h) ≡ is_remote m
unfolding is_remote set_screen_size
is_remote-set_screen_size m screen w h = refl

-- If the grab is on exactly while the cursor is on a remote screen, this is so again after every
-- event of the controller, once the hooks have been called.
pub step-grab :
    (g : Bool) (s : Controller) (ev : ServerEvent)
    → GrabAgrees g s.machine
    → GrabAgrees (hooked g (step s ev).1) (step s ev).0.machine
unfolding step
step-grab g s (from_local le) h =
    hooked-dispatch_all g s.clients (handle s.machine le).1 ∙ handle-grab g s.machine le h
step-grab g s (client_connected screen w h' outbound) h =
    h ∙ sym (is_remote-set_screen_size s.machine screen w h')
step-grab g s (client_disconnected screen) h = elim (Bool-cases (s.machine.active =l= screen)) [
  | inl e ↦ rw e (
      hooked-append g (dispatch_all (remove screen s.clients) (go_home s.machine).1) _
      ∙ hooked-dispatch_all g (remove screen s.clients) (go_home s.machine).1
      ∙ (go_home-grab g s.machine h).0)
  | inr e ↦ rw e h
]
step-grab g s (from_client screen msg) h = hooked-clip_effect g msg ∙ h
step-grab g s keep_alive_tick h = hooked-broadcast g s.clients _ ∙ h
step-grab g s (clipboard_out text) h = hooked-broadcast g s.clients _ ∙ h

run-agrees :
    (g : Bool) (s : Controller) (evs : List ServerEvent)
    → GrabAgrees g s.machine
    → GrabAgrees (hooked g (run s evs).1) (run s evs).0.machine
unfolding run
run-agrees g s [] h = h
run-agrees g s (ev ∷ evs) h =
    hooked-append g (step s ev).1 (run (step s ev).0 evs).1
    ∙ run-agrees (hooked g (step s ev).1) (step s ev).0 evs (step-grab g s ev h)

start-agrees :
    (layout : ScreenLayout) (local_screen : Name)
    → GrabAgrees false (start layout local_screen).machine
unfolding start new is_remote
start-agrees layout local_screen = rw (=l=_refl local_screen)

-- From the start, whatever events come in whatever order, local input is grabbed exactly while the
-- cursor is on a remote screen.
pub run-grab :
    (layout : ScreenLayout) (local_screen : Name) (evs : List ServerEvent)
    → hooked false (run (start layout local_screen) evs).1
      ≡ is_remote (run (start layout local_screen) evs).0.machine
run-grab layout local_screen evs =
    run-agrees false (start layout local_screen) evs (start-agrees layout local_screen)

-- When the client of the active screen goes, the machine is local, the grab is off, and no queue is
-- left under the name of that screen, if the grab agreed with the machine before.
pub step-released :
    (g : Bool) (s : Controller) (screen : Name)
    → GrabAgrees g s.machine
    → s.machine.active ≡ screen
    → (is_remote (step s (client_disconnected screen)).0.machine ≡ false)
      × (hooked g (step s (client_disconnected screen)).1 ≡ false)
      × (lookup screen (step s (client_disconnected screen)).0.clients ≡ none)
unfolding step
step-released g s screen h e = (home, step-grab g s (client_disconnected screen) h ∙ home, gone)
  where
    same : (s.machine.active =l= screen) ≡ true
    same = rw e (=l=_refl screen)

    home : is_remote (step s (client_disconnected screen)).0.machine ≡ false
    home = unfold step in rw same (go_home-grab g s.machine h).1

    gone : lookup screen (step s (client_disconnected screen)).0.clients ≡ none
    gone = unfold step in rw (lookup-remove, =l=_refl screen)
