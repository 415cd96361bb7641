-- ===== src/Daemon/Client.antt =====
-- The serve loop of crates/kvm-daemon/src/client.rs. The connection is the messages that it still
-- delivers and the error that it ends with, and takes everything that is sent; a failed injection is
-- only logged.
pub mod Injection
pub mod Connect
use self_kvm.Common.{ℕ, List, [], ◌∷◌, ◌++◌, Bool, true, false, if◌then◌else◌, Result, ok, err}
use self_kvm.Common.Int.{ℤ}
use self_kvm.Proto.Message.{Message, clipboard_data}
use self_kvm.Net.Transport.{NetError, closed, frame_too_large, proto, io}
use self_kvm.Core.Events.{InputCommand}
use self_kvm.Core.Client.{
  ClientMachine, ClientAction, inject, reply, connected, entered_screen, left_screen, disconnect,
  DisconnectReason, handle,
}

-- What the text of a `Disconnected` status says.
pub data Farewell : Type 0 where
  server_closed : Farewell
  failed : NetError → Farewell
  told : DisconnectReason → Farewell
  no_tls : Farewell

pub data ClientStatus : Type 0 where
  is_connecting is_connected has_entered has_left : ClientStatus
  disconnected : Farewell → ClientStatus

-- What the loop does to the rest of the program.
pub data ClientEffect : Type 0 where
  injected : InputCommand → ClientEffect
  sent : Message → ClientEffect
  status : ClientStatus → ClientEffect
  clip_set : (bytes : List ℕ) → ClientEffect

-- What the actions for one message do, and whether the loop returns behind them.
unfoldable pub perform : List ClientAction → List ClientEffect × Bool
perform [] = ([], false)
perform (inject cmd ∷ as') = let r = perform as' in (injected cmd ∷ r.0, r.1)
perform (reply m ∷ as') = let r = perform as' in (sent m ∷ r.0, r.1)
perform (connected ∷ as') = let r = perform as' in (status is_connected ∷ r.0, r.1)
perform (entered_screen ∷ as') = let r = perform as' in (status has_entered ∷ r.0, r.1)
perform (left_screen ∷ as') = let r = perform as' in (status has_left ∷ r.0, r.1)
perform (disconnect reason ∷ as') = (status (disconnected (told reason)) ∷ [], true)

abbrev pub clip_effect : Message → List ClientEffect
clip_effect (clipboard_data id seq mark bytes) = clip_set bytes ∷ []
clip_effect _ = []

abbrev pub ended : NetError → List ClientEffect × Result NetError (Unit {0})
ended closed = (status (disconnected server_closed) ∷ [], ok tt)
ended e = (status (disconnected (failed e)) ∷ [], err e)

unfoldable pub serve :
    ClientMachine → List Message → NetError → List ClientEffect × Result NetError (Unit {0})
unfolding perform
serve c [] end = ended end
serve c (m ∷ ms) end =
    let r = handle c m in
    let done = perform r.1 in
    let rest = serve r.0 ms end in
    (clip_effect m ++ (done.0 ++ (if done.1 then [] else rest.0)), if done.1 then ok tt else rest.1)
