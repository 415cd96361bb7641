-- ===== src/Desk/Statuses.antt =====
-- The forwarders of statuses in src-tauri/src/lib.rs: what the window gets for what the daemon says.
use Prim.Native.String.{String}
use text.Mathlib.Text.{◌==◌ as ◌=s=◌}
use self_kvm.Common.{
  ℕ, List, [], ◌∷◌, map, Bool, true, false, ◌≡◌, refl, sym, ◌∙◌, ap, arith, if◌then◌else◌,
}
use self_kvm.Proto.Utf8.{Text}
use self_kvm.Daemon.Server.{ServerStatus, listening, connected, disconnected, active_screen, grab}
use self_kvm.Daemon.Client.{
  Farewell, ClientStatus, is_connecting, is_connected, has_entered, has_left,
}
use self_kvm.Daemon.Client

pub record StatusEvent : Type 0 where
  pub kind : String
  pub detail : Text

-- `mk`
abbrev pub mk : String → Text → StatusEvent
mk kind detail = record { kind = kind; detail = detail }

-- `to_string` of a Boolean.
abbrev pub bool_text : Bool → Text
bool_text true = b't' ∷ b'r' ∷ b'u' ∷ b'e' ∷ []
bool_text false = b'f' ∷ b'a' ∷ b'l' ∷ b's' ∷ b'e' ∷ []

abbrev pub server_event : ServerStatus → StatusEvent
server_event (listening addr) = mk "listening" addr
server_event (connected screen) = mk "client_connected" screen
server_event (disconnected screen) = mk "client_disconnected" screen
server_event (active_screen screen) = mk "active_screen" screen
server_event (grab on) = mk "grab" (bool_text on)

unfoldable pub spawn_server_status_forwarder : List ServerStatus → List StatusEvent
spawn_server_status_forwarder ss = map server_event ss

-- The text of a farewell is made where the status is sent.
abbrev pub client_event : (Farewell → Text) → ClientStatus → StatusEvent
client_event text is_connecting = mk "connecting" []
client_event text is_connected = mk "connected" []
client_event text has_entered = mk "entered" []
client_event text has_left = mk "left" []
client_event text (Client.disconnected reason) = mk "disconnected" (text reason)

unfoldable pub spawn_client_status_forwarder :
    (Farewell → Text) → List ClientStatus → List StatusEvent
spawn_client_status_forwarder text ss = map (client_event text) ss

-- The kinds, numbered.
abbrev number : String → ℕ
number k =
    if k =s= "listening"
    then 0
    else if k =s= "client_connected"
    then 1
    else if k =s= "client_disconnected"
    then 2
    else if k =s= "active_screen"
    then 3
    else 4

abbrev tag : ServerStatus → ℕ
tag (listening addr) = 0
tag (connected screen) = 1
tag (disconnected screen) = 2
tag (active_screen screen) = 3
tag (grab on) = 4

number-tag : (s : ServerStatus) → number (server_event s).kind ≡ tag s
number-tag (listening addr) = refl
number-tag (connected screen) = refl
number-tag (disconnected screen) = refl
number-tag (active_screen screen) = refl
number-tag (grab on) = refl

-- The window can tell all statuses of a server apart.
server_event_inj : (s t : ServerStatus) → server_event s ≡ server_event t → s ≡ t
server_event_inj s t e =
    let k : tag s ≡ tag t =
      sym (number-tag s) ∙ ap (λ (x : StatusEvent). number x.kind) e ∙ number-tag t in
    let d = ap (λ (x : StatusEvent). x.detail) e in ground (arith, k, d)
