-- ===== src/Daemon/Server/Handshake.antt =====
-- `handle_client` of crates/kvm-daemon/src/server.rs: the handshake, and what a connection makes the
-- controller see. The connection is the list of messages that it still delivers, and takes everything
-- that is sent.
pub mod Visits
use self_kvm.Common.{
  map, ap, List, [], ◌∷◌, ◌++◌, Bool, true, false, not, ◌&&◌, ◌≡◌, refl, arith, ◌⊎◌, inl, inr,
  if◌then◌else◌, Result, ok, err, Bool-cases, sym,
}
use mathlib.Core.Path.{subst}
use self_kvm.Common.Int.{ℤ, leb_ℤ, as_i16}
use self_kvm.Common.Map.{Name}
use self_kvm.Proto.Utf8.{Text}
use self_kvm.Proto.Message.{
  Message, hello, hello_back, query_info, device_info, info_ack, reset_options, set_options,
  err_incompatible, err_unknown, protocol_major, protocol_minor,
}
use self_kvm.Core.Layout.{ScreenLayout, ScreenSize, contains}
use self_kvm.Core.Client.{ClientMachine, ClientAction, reply, new, handle, handle_all}
use self_kvm.Daemon.Server.{
  Outbound, ServerEvent, client_connected, client_disconnected, from_client,
}

pub data HandshakeError : Type 0 where
  incompatible : (major : ℤ) → HandshakeError
  not_in_layout : (screen : Name) → HandshakeError
  unexpected : Message → HandshakeError
  lost : HandshakeError

-- A client that has been greeted, and what its connection still delivers.
pub record Guest : Type 0 where
  pub name : Name
  pub w : ℤ
  pub h : ℤ
  pub rest : List Message

abbrev pub is_major : ℤ → Bool
is_major major = leb_ℤ major protocol_major && leb_ℤ protocol_major major

-- What is sent, and the guest or why there is none.
abbrev pub Greeted : Type 0
Greeted = List Message × Result HandshakeError Guest

abbrev pub sending : List Message → Greeted → Greeted
sending ms g = (ms ++ g.0, g.1)

-- From the geometry on.
abbrev pub measure : Name → List Message → Greeted
measure name [] = ([], err lost)
measure name (device_info x y w h warp mx my ∷ ms) = (
  info_ack ∷ reset_options ∷ set_options [] ∷ [],
  ok (record { name = name; w = w; h = h; rest = ms }),
)
measure name (m ∷ ms) = ([], err (unexpected m))

-- From the name on.
abbrev pub admit : ScreenLayout → List Message → Greeted
admit layout [] = ([], err lost)
admit layout (hello_back major minor name ∷ ms) =
    if not (is_major major)
    then (err_incompatible protocol_major protocol_minor ∷ [], err (incompatible major))
    else if not (contains layout name)
    then (err_unknown ∷ [], err (not_in_layout name))
    else sending (query_info ∷ []) (measure name ms)
admit layout (m ∷ ms) = ([], err (unexpected m))

unfoldable pub greet : ScreenLayout → List Message → Greeted
greet layout ms = sending (hello protocol_major protocol_minor ∷ []) (admit layout ms)

abbrev pub pumped : Name → List Message → List ServerEvent
pumped name [] = client_disconnected name ∷ []
pumped name (m ∷ ms) = from_client name m ∷ pumped name ms

abbrev pub events_of : Outbound → Result HandshakeError Guest → List ServerEvent
events_of tx (ok g) = client_connected g.name g.w g.h tx ∷ pumped g.name g.rest
events_of tx (err e) = []

-- The events that a connection gives the controller, until it closes.
unfoldable pub handle_client : ScreenLayout → Outbound → List Message → List ServerEvent
unfolding greet
handle_client layout tx ms = events_of tx (greet layout ms).1

-- What a client machine answers.
abbrev pub replied : List ClientAction → List Message
replied [] = []
replied (reply m ∷ as') = m ∷ replied as'
replied (_ ∷ as') = replied as'

abbrev pub replies : ClientMachine → List Message → List Message
replies c [] = []
replies c (m ∷ ms) = replied (handle c m).1 ++ replies (handle c m).0 ms

abbrev pub greeting_of_server : List Message
greeting_of_server =
    hello protocol_major protocol_minor
    ∷ query_info
    ∷ info_ack
    ∷ reset_options
    ∷ set_options []
    ∷ []

-- A client machine whose name is a screen of the layout passes the handshake: its answers to the
-- server's messages make the server send exactly these messages and adopt the name with the size that
-- the client has, as i16, and after them the client's geometry is acknowledged and it is not entered.
pub greet-replies :
    (layout : ScreenLayout) (name : Text) (screen : ScreenSize) (ms : List Message)
    → contains layout name ≡ true
    → (greet layout (replies (new name screen) greeting_of_server ++ ms) ≡ (
      greeting_of_server,
      ok (record { name = name; w = as_i16 screen.w; h = as_i16 screen.h; rest = ms }),
    ))
      × ((handle_all (new name screen) greeting_of_server).acked ≡ true)
      × ((handle_all (new name screen) greeting_of_server).entered ≡ false)
unfolding greet new handle handle_all
greet-replies layout name screen ms h = (rw h, refl, refl)
