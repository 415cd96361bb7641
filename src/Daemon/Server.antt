-- ===== src/Daemon/Server.antt =====
-- The controller of crates/kvm-daemon/src/server.rs: it owns the machine and the table of clients, and
-- turns each event into calls of the hooks, messages put into the clients' queues and status updates.
pub mod Handshake
pub mod Grabbing
pub mod Routes
pub mod Places
use self_kvm.Common.{
  ℕ, ◌+◌, ◌%◌, ◌^◌, List, [], ◌∷◌, ◌++◌, Bool, true, false, Option, none, some, if◌then◌else◌,
  ◌=l=◌,
}
use self_kvm.Common.Int.{ℤ, pos}
use self_kvm.Common.Map.{Name, Map, lookup, insert, remove}
use self_kvm.Proto.Utf8.{Text, as_bytes}
use self_kvm.Proto.Message.{Message, keep_alive, clipboard_data}
use self_kvm.Core.Events.{LocalEvent}
use self_kvm.Core.Layout.{ScreenLayout}
use self_kvm.Core.Server
use self_kvm.Core.Server.{
  ServerAction, send, set_grab, warp_cursor, active_changed, ServerMachine, handle, go_home,
  set_screen_size,
}

-- The sending half of a connection's queue, by the number of the connection.
abbrev pub Outbound : Type 0
Outbound = ℕ

pub data ServerStatus : Type 0 where
  listening : (addr : Text) → ServerStatus
  connected disconnected active_screen : (screen : Name) → ServerStatus
  grab : Bool → ServerStatus

pub data ServerEvent : Type 0 where
  from_local : LocalEvent → ServerEvent
  client_connected : (screen : Name) (w h : ℤ) (outbound : Outbound) → ServerEvent
  client_disconnected : (screen : Name) → ServerEvent
  from_client : (screen : Name) (msg : Message) → ServerEvent
  keep_alive_tick : ServerEvent
  clipboard_out : (text : Text) → ServerEvent

-- What the controller does to the rest of the program. `clip_set` gives the clipboard bytes, which it
-- reads as UTF-8 with replacement characters.
pub data Effect : Type 0 where
  queued : (outbound : Outbound) (msg : Message) → Effect
  hook_grab : Bool → Effect
  hook_warp : (x y : ℤ) → Effect
  status : ServerStatus → Effect
  clip_set : (bytes : List ℕ) → Effect

pub record Controller : Type 0 where
  pub machine : ServerMachine
  pub clients : Map Outbound
  pub clip_seq : ℕ  -- u32

-- A message for a screen without a client is dropped.
abbrev pub queue_to : Option Outbound → Message → List Effect
queue_to (some tx) msg = queued tx msg ∷ []
queue_to none msg = []

unfoldable pub dispatch : Map Outbound → ServerAction → List Effect
dispatch clients (send screen msg) = queue_to (lookup screen clients) msg
dispatch clients (set_grab on) = hook_grab on ∷ status (grab on) ∷ []
dispatch clients (warp_cursor x y) = hook_warp x y ∷ []
dispatch clients (active_changed screen) = status (active_screen screen) ∷ []

abbrev pub dispatch_all : Map Outbound → List ServerAction → List Effect
dispatch_all clients [] = []
dispatch_all clients (a ∷ as') = dispatch clients a ++ dispatch_all clients as'

-- `for tx in clients.values()`, in some order.
abbrev pub broadcast : Map Outbound → Message → List Effect
broadcast [] msg = []
broadcast ((screen, tx) ∷ clients) msg = queued tx msg ∷ broadcast clients msg

abbrev pub clip_effect : Message → List Effect
clip_effect (clipboard_data id seq mark bytes) = clip_set bytes ∷ []
clip_effect _ = []

-- One round of the controller's loop.
unfoldable pub step : Controller → ServerEvent → Controller × List Effect
step s (from_local le) =
    let r = handle s.machine le in (record s { machine = r.0 }, dispatch_all s.clients r.1)
step s (client_connected screen w h outbound) = (
  record s {
    machine = set_screen_size s.machine screen w h;
    clients = insert screen outbound s.clients;
  },
  status (connected screen) ∷ [],
)
step s (client_disconnected screen) =
    let clients' = remove screen s.clients in
    let r = (if s.machine.active =l= screen then go_home s.machine else (s.machine, [])) in
    (
      record s { machine = r.0; clients = clients' },
      dispatch_all clients' r.1 ++ (status (disconnected screen) ∷ []),
    )
step s (from_client screen msg) = (s, clip_effect msg)
step s keep_alive_tick = (s, broadcast s.clients keep_alive)
step s (clipboard_out text) =
    let seq' = (s.clip_seq + 1) % 2 ^ 32 in
    (
      record s { clip_seq = seq' },
      broadcast s.clients (clipboard_data (pos 0) seq' (pos 0) (as_bytes text)),
    )

-- The controller before the first event.
unfoldable pub start : ScreenLayout → Name → Controller
start layout local_screen = record {
  machine = Server.new layout local_screen;
  clients = [];
  clip_seq = 0;
}

-- The loop over a list of events, with everything that it does.
unfoldable pub run : Controller → List ServerEvent → Controller × List Effect
unfolding step
run s [] = (s, [])
run s (ev ∷ evs) = let r = step s ev in let q = run r.0 evs in (q.0, r.1 ++ q.1)
