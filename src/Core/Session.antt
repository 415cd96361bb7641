-- ===== src/Core/Session.antt =====
-- The server machine and a client machine joined: what crates/kvm-core/src/server.rs sends to one
-- screen, crates/kvm-core/src/client.rs handles there, in order.
use self_kvm.Common.{
  List, [], ◌∷◌, Bool, true, false, ◌&&◌, ◌≡◌, sym, ◌∙◌, arith, ◌=l=◌, if◌then◌else◌, =l=→eq,
  Bool-cases, inl, inr,
}
use self_kvm.Common.Map.{Name}
use self_kvm.Proto.Message.{Message, is_input}
use self_kvm.Core.Layout.{Crossing}
use self_kvm.Core.Events.{LocalEvent, key_event}
use self_kvm.Core.Client.{ClientMachine, handle_all}
use self_kvm.Core.Client.Gate.{on_screen, focus_of, handle_all-state}
use self_kvm.Core.Server
use self_kvm.Core.Server.{
  ServerMachine, ServerAction, send, set_grab, warp_cursor, active_changed, Handled, is_remote,
  track_modifiers, stay, cross, send_active,
}
use self_kvm.Core.Server.Rule.{handle-rule}

-- What the runtime delivers to the client of one screen.
abbrev pub messages_to : Name → List ServerAction → List Message
messages_to k [] = []
messages_to k (send screen msg ∷ as') =
    if screen =l= k then msg ∷ messages_to k as' else messages_to k as'
messages_to k (_ ∷ as') = messages_to k as'

-- Whether the server's cursor is on the screen `k`, away from home.
unfoldable pub is_on : Name → ServerMachine → Bool
unfolding is_remote
is_on k m = is_remote m && m.active =l= k

abbrev Agrees : Name → Bool → ServerMachine → Type 0
Agrees k b m = b ≡ is_on k m

abbrev AgreesAfter : Name → Bool → Handled → Type 0
AgreesAfter k b r = Agrees k (on_screen b (messages_to k r.1)) r.0

track-Agrees :
    (k : Name) (b : Bool) (m : ServerMachine) (ev : LocalEvent)
    → Agrees k b m
    → Agrees k b (track_modifiers m ev)
unfolding track_modifiers is_on
track-Agrees k b m (key_event id mask button action) h = h
track-Agrees k b m _ h = h

stay-Agrees : (k : Name) (b : Bool) (m : ServerMachine) → Agrees k b m → AgreesAfter k b (stay m)
unfolding stay is_on
stay-Agrees k b m h = ground arith

cross-Agrees :
    (k : Name) (b : Bool) (m : ServerMachine) (c : Crossing)
    → Agrees k b m
    → AgreesAfter k b (cross m c)
unfolding cross is_on
cross-Agrees k b m c h = ground arith

-- Input changes nobody's focus.
input_keeps :
    (b : Bool) (k a : Name) (msg : Message)
    → is_input msg ≡ true
    → on_screen b (messages_to k (send a msg ∷ [])) ≡ b
unfolding is_input
input_keeps b k a msg i = elim (Bool-cases (a =l= k)) [
  | inl e ↦ rw e (focus_input b msg i)
  | inr e ↦ rw e
]
  where
    focus_input : (z : Bool) (n : Message) → is_input n ≡ true → focus_of z n ≡ z
    focus_input z n h = ground arith

is_on-active : (k : Name) (m : ServerMachine) → is_on k m ≡ true → m.active ≡ k
unfolding is_on
is_on-active k m h = =l=→eq m.active k (ground arith)

handle-Agrees :
    (k : Name) (b : Bool) (m : ServerMachine) (ev : LocalEvent)
    → Agrees k b m
    → AgreesAfter k b (Server.handle m ev)
unfolding send_active is_on
handle-Agrees k b m ev h =
    handle-rule (Agrees k b) (Agrees k b) (AgreesAfter k b) (track-Agrees k b) (λ n x y p. p)
      (λ n p e. stay-Agrees k b n p) (λ n c p e. cross-Agrees k b n c p) (λ n p. p)
      (λ n msg p r i. input_keeps b k n.active msg i ∙ p) m ev h

-- Carrying out what one event asks for brings the client of any screen to the point where it takes
-- itself to be entered exactly if the server's cursor is there, if that was so before.
pub handle-focus :
    (k : Name) (m : ServerMachine) (c : ClientMachine) (ev : LocalEvent)
    → c.entered ≡ is_on k m
    → (handle_all c (messages_to k (Server.handle m ev).1)).entered ≡ is_on k (Server.handle m ev).0
handle-focus k m c ev h =
    (handle_all-state c (messages_to k (Server.handle m ev).1)).0 ∙ handle-Agrees k c.entered m ev h

-- The server after a list of events, and the client of the screen `k` beside it.
unfoldable pub server_run : ServerMachine → List LocalEvent → ServerMachine
server_run m [] = m
server_run m (ev ∷ evs) = server_run (Server.handle m ev).0 evs

unfoldable pub client_run : Name → ServerMachine → ClientMachine → List LocalEvent → ClientMachine
client_run k m c [] = c
client_run k m c (ev ∷ evs) =
    client_run k (Server.handle m ev).0 (handle_all c (messages_to k (Server.handle m ev).1)) evs

run-focus :
    (k : Name) (m : ServerMachine) (c : ClientMachine) (evs : List LocalEvent)
    → c.entered ≡ is_on k m
    → (client_run k m c evs).entered ≡ is_on k (server_run m evs)
unfolding server_run client_run
run-focus k m c [] h = h
run-focus k m c (ev ∷ evs) h =
    run-focus k (Server.handle m ev).0 (handle_all c (messages_to k (Server.handle m ev).1)) evs
      (handle-focus k m c ev h)

-- From a local server, whatever is captured, two screens whose clients both take themselves to be
-- entered are the same screen, and it is the server's active one.
pub one_entered :
    (j k : Name) (m : ServerMachine) (c d : ClientMachine) (evs : List LocalEvent)
    → is_remote m ≡ false
    → c.entered ≡ false
    → d.entered ≡ false
    → (client_run j m c evs).entered ≡ true
    → (client_run k m d evs).entered ≡ true
    → (j ≡ k) × ((server_run m evs).active ≡ k)
one_entered j k m c d evs r hc hd ej ek =
    let p = sym (run-focus j m c evs (hc ∙ start j)) ∙ ej in
    let q = sym (run-focus k m d evs (hd ∙ start k)) ∙ ek in
    let a = is_on-active j (server_run m evs) p in
    let b = is_on-active k (server_run m evs) q in (sym a ∙ b, b)
  where
    start : (i : Name) → false ≡ is_on i m
    start i = unfold is_on in rw r
