-- ===== src/Daemon/Server/Routes.antt =====
-- Whom the controller of crates/kvm-daemon/src/server.rs writes to, and the places it keeps.
use self_kvm.Common.{
  List, [], ◌∷◌, Bool, true, false, ◌≡◌, refl, sym, arith, some, Option-cases, inl, inr, All,
  All-append,
}
use self_kvm.Common.Map.{Name, Map, lookup}
use self_kvm.Proto.Message.{Message, clipboard_data, is_input}
use self_kvm.Core.Server.{
  ServerAction, send, set_grab, warp_cursor, active_changed, go_home, is_remote,
}
use self_kvm.Core.Server.Routing.{IsRouted, handle-IsRouted}
use self_kvm.Daemon.Server.{
  Outbound, Effect, queued, Controller, dispatch, dispatch_all, broadcast, clip_effect, ServerEvent,
  from_local, client_connected, client_disconnected, from_client, keep_alive_tick, clipboard_out,
  step,
}

-- Input goes into the queue of the client of the screen `a`, and only where `r` holds.
abbrev pub IsDelivered : Map Outbound → Name → Bool → Effect → Type 0
IsDelivered clients a r (queued tx msg) =
    is_input msg ≡ true → (lookup a clients ≡ some tx) × (r ≡ true)
IsDelivered clients a r _ = Unit {0}

dispatch-IsDelivered :
    (clients : Map Outbound) (a : Name) (r : Bool) (act : ServerAction)
    → IsRouted a r act
    → All (IsDelivered clients a r) (dispatch clients act)
unfolding dispatch
dispatch-IsDelivered clients a r (send screen msg) h = elim (Option-cases (lookup screen clients)) [
  | inl e ↦ rw e tt
  | inr (tx, e) ↦ rw e ((λ i. (rw (sym (h i).0) e, (h i).1)), tt)
]
dispatch-IsDelivered clients a r (set_grab on) h = (tt, (tt, tt))
dispatch-IsDelivered clients a r (warp_cursor x y) h = (tt, tt)
dispatch-IsDelivered clients a r (active_changed screen) h = (tt, tt)

dispatch_all-IsDelivered :
    (clients : Map Outbound) (a : Name) (r : Bool) (as' : List ServerAction)
    → All (IsRouted a r) as'
    → All (IsDelivered clients a r) (dispatch_all clients as')
dispatch_all-IsDelivered clients a r [] h = tt
dispatch_all-IsDelivered clients a r (x ∷ as') h =
    All-append (IsDelivered clients a r) (dispatch clients x) (dispatch_all clients as')
      (dispatch-IsDelivered clients a r x h.0) (dispatch_all-IsDelivered clients a r as' h.1)

-- What no client is to take as input is delivered to anyone.
broadcast-IsDelivered :
    (clients all : Map Outbound) (a : Name) (r : Bool) (msg : Message)
    → is_input msg ≡ false
    → All (IsDelivered all a r) (broadcast clients msg)
broadcast-IsDelivered [] all a r msg h = tt
broadcast-IsDelivered ((screen, tx) ∷ clients) all a r msg h =
    ((λ i. ground arith), broadcast-IsDelivered clients all a r msg h)

clip_effect-IsDelivered :
    (clients : Map Outbound) (a : Name) (r : Bool) (msg : Message)
    → All (IsDelivered clients a r) (clip_effect msg)
clip_effect-IsDelivered clients a r (clipboard_data id seq mark bytes) = (tt, tt)
clip_effect-IsDelivered clients a r _ = tt

-- Whatever the event, an input message is put only into the queue of the client that is registered
-- for the screen that was active before it, and only if that screen was remote.
pub step-IsDelivered :
    (s : Controller) (ev : ServerEvent)
    → All (IsDelivered s.clients s.machine.active (is_remote s.machine)) (step s ev).1
unfolding step
step-IsDelivered s (from_local le) =
    dispatch_all-IsDelivered s.clients s.machine.active (is_remote s.machine) _
      (handle-IsRouted s.machine le)
step-IsDelivered s (client_connected screen w h outbound) = (tt, tt)
step-IsDelivered s (client_disconnected screen) = unfold go_home dispatch in ground arith
step-IsDelivered s (from_client screen msg) = clip_effect-IsDelivered s.clients _ _ msg
step-IsDelivered s keep_alive_tick =
    broadcast-IsDelivered s.clients s.clients _ _ _ (unfold is_input in refl)
step-IsDelivered s (clipboard_out text) =
    broadcast-IsDelivered s.clients s.clients _ _ _ (unfold is_input in refl)
