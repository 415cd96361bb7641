-- ===== src/Net/Wire/Session.antt =====
-- The server machine of crates/kvm-core/src/server.rs and its clients, over crates/kvm-net/src/transport.rs.
use self_kvm.Common.{
  suc, ◌≡◌, arith, List, [], ◌∷◌, ◌++◌, All, All-append, length, some, ok, Bool, true, false,
  if◌then◌else◌, ◌=l=◌,
}
use self_kvm.Common.Map.{Name}
use self_kvm.Proto.Message.{Message}
use self_kvm.Net.Transport.{FramedWriter, Ending, ending_error}
use self_kvm.Net.Wire.{sends, recv_all, working, IsTaken, recv_all-sends}
use self_kvm.Core.Layout.{ScreenLayout}
use self_kvm.Core.Events.{LocalEvent}
use self_kvm.Core.Server.{
  ServerMachine, ServerAction, send, set_grab, warp_cursor, active_changed, new, handle,
}
use self_kvm.Core.Server.Typed.{IsTyped, IsEvent, IsSendable, IsShort, handle-Typed, new-IsTyped}
use self_kvm.Core.Session.{messages_to}

-- All messages to the screen `k` over a list of events, in order.
unfoldable pub sent_to : Name → ServerMachine → List LocalEvent → List Message
sent_to k m [] = []
sent_to k m (ev ∷ evs) = messages_to k (handle m ev).1 ++ sent_to k (handle m ev).0 evs

if-IsTaken :
    (b : Bool) (m : Message) (ms : List Message)
    → IsShort m
    → All IsTaken ms
    → All IsTaken (if b then m ∷ ms else ms)
if-IsTaken true m ms h k = ((h.0, omega (arith, h.1)), k)
if-IsTaken false m ms h k = k

messages_to-IsTaken :
    (k : Name) (as' : List ServerAction) → All IsSendable as' → All IsTaken (messages_to k as')
messages_to-IsTaken k [] h = tt
messages_to-IsTaken k (send screen msg ∷ as') h =
    if-IsTaken (screen =l= k) msg (messages_to k as') h.0 (messages_to-IsTaken k as' h.1)
messages_to-IsTaken k (set_grab on ∷ as') h = messages_to-IsTaken k as' h.1
messages_to-IsTaken k (warp_cursor x y ∷ as') h = messages_to-IsTaken k as' h.1
messages_to-IsTaken k (active_changed screen ∷ as') h = messages_to-IsTaken k as' h.1

sent_to-IsTaken :
    (k : Name) (m : ServerMachine) (evs : List LocalEvent)
    → IsTyped m
    → All IsEvent evs
    → All IsTaken (sent_to k m evs)
unfolding sent_to
sent_to-IsTaken k m [] h es = tt
sent_to-IsTaken k m (ev ∷ evs) h es =
    let t = handle-Typed m ev h es.0 in
    All-append IsTaken (messages_to k (handle m ev).1) (sent_to k (handle m ev).0 evs)
      (messages_to-IsTaken k (handle m ev).1 t.1) (sent_to-IsTaken k (handle m ev).0 evs t.0 es.1)

-- From a new machine, whatever events of the types of the source are captured, what is written for a
-- screen on a connection that works is received there as the messages that the machine sends to that
-- screen, in order, and then the end of the connection.
pub run-received :
    (layout : ScreenLayout) (local_screen k : Name) (evs : List LocalEvent) (e : Ending)
    → All IsEvent evs
    → (w : FramedWriter) × (sends (working []) (sent_to k (new layout local_screen) evs) ≡ ok w)
      × (recv_all (suc (length w.written)) (record { inner = w.written; ending = e })
          ≡ (sent_to k (new layout local_screen) evs, some (ending_error e)))
run-received layout local_screen k evs e h =
    recv_all-sends (sent_to k (new layout local_screen) evs) e
      (sent_to-IsTaken k (new layout local_screen) evs (new-IsTyped layout local_screen) h)
