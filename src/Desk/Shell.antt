-- ===== src/Desk/Shell.antt =====
-- src-tauri/src/lib.rs: the commands of the desktop application and the state they share. The display,
-- the socket, the capture backend and the injector's thread are parameters of the commands that ask
-- for them; windows, menus and logging are the GUI library's.
pub mod Setup
pub mod Consistent
pub mod Restart
pub mod Sound
use self_kvm.Common.{
  ℕ, ◌+◌, List, [], ◌∷◌, ◌++◌, Option, none, some, Bool, true, false, if◌then◌else◌, Result, ok,
  err,
}
use self_kvm.Proto.Utf8.{Text}
use self_kvm.Common.Map.{Name}
use self_kvm.Core.Config.{ServerConfig, ClientConfig}
use self_kvm.Core.Events.{LocalEvent}
use self_kvm.Desk.Shell.Setup.{
  ServerSetup, ClientSetup, SetupError, configure, client_config, not_in_layout,
}
use self_kvm.Input.Display.{Display}

-- What a handle stands for: a server with the channel of its capture events, or a client with a working
-- injector or the one that injects nothing.
pub data Task : Type 0 where
  server_task : ServerConfig → (channel : ℕ) → Task
  client_task : ClientConfig → (injects : Bool) → Task

pub data Mode : Type 0 where
  server client : Mode

-- The handle of a task that ends by itself stays in `task`.
pub record RunState : Type 0 where
  pub task : Option Task
  pub capture_started : Bool
  pub mode : Option Mode

-- The application's state, with what the commands leave behind outside of it: how many channels there
-- have been, how many capture threads, and the addresses that are listened on. The accept loop of a
-- server is a task of its own, which holds the address when the server's task is aborted.
pub record App : Type 0 where
  pub inner : RunState
  pub sink : Option ℕ
  pub grab : Bool
  pub channels : ℕ
  pub captures : ℕ
  pub listening : List (Text × ℕ)

unfoldable pub new_app : App
new_app = record {
  inner = record { task = none; capture_started = false; mode = none };
  sink = none;
  grab = false;
  channels = 0;
  captures = 0;
  listening = [];
}

pub data StartError : Type 0 where
  bad_setup : SetupError → StartError
  failed : Text → StartError

unfoldable pub stop_inner : App → App
stop_inner a = record a {
  inner = record (a.inner) { task = none; mode = none };
  sink = none;
  grab = false;
}

abbrev pub Started : Type 0
Started = Result Text (Unit {0})

abbrev pub ensured : Bool → Started → App → App × Started
ensured true start a = (a, ok tt)
ensured false (ok u) a = (
  record a { inner = record (a.inner) { capture_started = true }; captures = a.captures + 1 },
  ok tt,
)
ensured false (err e) a = (a, err e)

-- The answer of the capture backend is asked for the first time only.
unfoldable pub ensure_capture : Started → App → App × Started
ensure_capture start a = ensured a.inner.capture_started start a

-- `ServerRuntime::bind`, given what is listened on: an error, or nothing to say.
abbrev pub Bind : Type 0
Bind = List (Text × ℕ) → Text → ℕ → Started

abbrev pub running : ServerConfig → App → App
running c a = record a {
  inner = record (a.inner) { task = some (server_task c a.channels); mode = some server };
  sink = some a.channels;
  channels = a.channels + 1;
}

abbrev pub captured : ServerConfig → App × Started → App × Result StartError (Unit {0})
captured c (a, ok u) = (running c a, ok tt)
captured c (a, err e) = (a, err (failed e))

-- Behind `bind`: a runtime that is dropped gives its address back, one that runs keeps it.
abbrev pub kept : Text × ℕ → App × Result StartError (Unit {0}) → App × Result StartError (Unit {0})
kept addr (a, ok u) = (record a { listening = addr ∷ a.listening }, ok u)
kept addr (a, err e) = (a, err e)

abbrev pub bound : Started → Started → ServerConfig → App → App × Result StartError (Unit {0})
bound (err e) capture c a = (a, err (failed e))
bound (ok u) capture c a = kept (c.bind, c.port) (captured c (ensure_capture capture a))

abbrev pub with_config :
    Bind → Started → Result SetupError ServerConfig → App → App × Result StartError (Unit {0})
with_config bind capture (err e) a = (a, err (bad_setup e))
with_config bind capture (ok c) a = bound (bind a.listening c.bind c.port) capture c a

-- What follows the call of `stop_inner`. Other commands may run before it, while it waits for `bind`.
abbrev pub resume_server :
    Bind → Started → Display → ServerSetup → App → App × Result StartError (Unit {0})
resume_server bind capture display setup a = with_config bind capture (configure display setup) a

unfoldable pub start_server :
    Bind → Started → Display → ServerSetup → App → App × Result StartError (Unit {0})
unfolding stop_inner ensure_capture configure
start_server bind capture display setup a = resume_server bind capture display setup (stop_inner a)

abbrev pub spawned : Started → Bool
spawned (ok u) = true
spawned (err e) = false

-- Without an injector the client runs with the one that injects nothing.
unfoldable pub start_client : Started → ClientSetup → App → App
unfolding stop_inner client_config
start_client injector setup a =
    let b = stop_inner a in
    record b {
      inner = record (b.inner) {
        task = some (client_task (client_config setup) (spawned injector));
        mode = some client;
      };
    }

-- `get_state`: whether there is a handle, and the mode.
unfoldable pub get_state : App → Bool × Option Mode
get_state a = (elim a.inner.task [ some t ↦ true | none ↦ false ], a.inner.mode)

-- The closure that the capture thread calls: the channel that gets the event.
unfoldable pub sunk : App → LocalEvent → Option (ℕ × LocalEvent)
sunk a ev = elim a.sink [ some channel ↦ some (channel, ev) | none ↦ none ]

-- The hooks of a server have the switch of the application, and set it whenever they are called: by the
-- server that runs, or by one whose task has been aborted and has not got to its next await yet.
unfoldable pub hook_grab : Bool → App → App
hook_grab on a = record a { grab = on }
