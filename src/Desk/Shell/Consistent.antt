-- ===== src/Desk/Shell/Consistent.antt =====
-- The state of src-tauri/src/lib.rs over any sequence of commands.
use self_kvm.Common.{
  ℕ, List, [], ◌∷◌, Option, none, some, Bool, true, false, ◌≡◌, refl, ap, ◌∙◌, ◌+◌, arith,
  if◌then◌else◌, Result, ok, err,
}
use self_kvm.Proto.Utf8.{Text}
use self_kvm.Desk.Shell.Setup.{ServerSetup, ClientSetup, SetupError, configure}
use self_kvm.Core.Config.{ServerConfig}
use self_kvm.Desk.Shell.{
  Task, server_task, client_task, Mode, server, client, App, new_app, Started, Bind, stop_inner,
  ensure_capture, ensured, captured, kept, bound, with_config, resume_server, start_server,
  start_client, hook_grab, StartError,
}
use self_kvm.Input.Display.{Display}

-- A command with what the system answers to it, or what happens beside the commands: the start of a
-- server goes on behind `bind`, where `stop` stands for its first half; a task ends by itself; the hooks
-- of any server, be it stopped or not, set the grab.
pub data Command : Type 0 where
  start_as_server server_resumed : Bind → Started → Display → ServerSetup → Command
  start_as_client : Started → ClientSetup → Command
  stop task_ended : Command
  grab_set : Bool → Command

unfoldable pub command : Command → App → App
unfolding start_server start_client stop_inner hook_grab
command (start_as_server bind capture display setup) a =
    (start_server bind capture display setup a).0
command (server_resumed bind capture display setup) a =
    (resume_server bind capture display setup a).0
command (start_as_client injector setup) a = start_client injector setup a
command stop a = stop_inner a
command task_ended a = a
command (grab_set on) a = hook_grab on a

unfoldable pub commands : List Command → App → App
unfolding command
commands [] a = a
commands (c ∷ cs) a = commands cs (command c a)

abbrev pub channel_of : Option Task → Option ℕ
channel_of (some (server_task c channel)) = some channel
channel_of _ = none

abbrev pub mode_of : Option Task → Option Mode
mode_of none = none
mode_of (some (server_task c channel)) = some server
mode_of (some (client_task c injects)) = some client

abbrev pub serves : Option Task → Bool
serves (some (server_task c channel)) = true
serves _ = false

-- The mode is that of the handle, capture events go to the channel of the server whose handle is kept,
-- the newest of all channels, and to none without one, there is such a handle only behind a capture
-- thread, and there is one such thread at most.
pub record IsConsistent (a : App) : Type 0 where
  pub mode_ok : a.inner.mode ≡ mode_of a.inner.task
  pub sink_ok : a.sink ≡ channel_of a.inner.task
  pub newest : (channel : ℕ) → a.sink ≡ some channel → channel + 1 ≡ a.channels
  pub captured_ok : serves a.inner.task ≡ true → a.inner.capture_started ≡ true
  pub captures_ok : a.captures ≡ (if a.inner.capture_started then 1 else 0)

-- The grab behind a list of commands, from the commands alone: what the hooks asked for last, unless a
-- command that begins with a stop has come since.
abbrev pub last_grab : Bool → List Command → Bool
last_grab g [] = g
last_grab g (grab_set on ∷ cs) = last_grab on cs
last_grab g (server_resumed bind capture display setup ∷ cs) = last_grab g cs
last_grab g (task_ended ∷ cs) = last_grab g cs
last_grab g (_ ∷ cs) = last_grab false cs

stop_inner-IsConsistent : (a : App) → IsConsistent a → IsConsistent (stop_inner a)
unfolding stop_inner
stop_inner-IsConsistent a h = record {
  mode_ok = refl;
  sink_ok = refl;
  newest = λ channel e. absurd (cc e);
  captured_ok = λ e. absurd (cc e);
  captures_ok = h.captures_ok;
}

-- Behind a capture thread that has been asked for.
abbrev IsCaptured : App × Started → Type 0
IsCaptured (a, ok u) = IsConsistent a × (a.inner.capture_started ≡ true)
IsCaptured (a, err e) = IsConsistent a

ensured-IsCaptured :
    (b : Bool) (s : Started) (a : App)
    → a.inner.capture_started ≡ b
    → IsConsistent a
    → IsCaptured (ensured b s a)
ensured-IsCaptured true s a e h = (h, e)
ensured-IsCaptured false (err x) a e h = h
ensured-IsCaptured false (ok u) a e h = (
  record {
    mode_ok = h.mode_ok;
    sink_ok = h.sink_ok;
    newest = h.newest;
    captured_ok = λ q. refl;
    captures_ok = let n = rw e at h.captures_ok in omega (arith, n);
  },
  refl,
)

running-IsConsistent :
    (c : ServerConfig) (r : App × Started) → IsCaptured r → IsConsistent (captured c r).0
running-IsConsistent c (a, err e) h = h
running-IsConsistent c (a, ok u) (h, e) = record {
  mode_ok = refl;
  sink_ok = refl;
  newest = λ channel q. ground arith;
  captured_ok = λ q. e;
  captures_ok = h.captures_ok;
}

kept-IsConsistent :
    (addr : Text × ℕ) (r : App × Result StartError (Unit {0}))
    → IsConsistent r.0
    → IsConsistent (kept addr r).0
kept-IsConsistent addr (a, err e) h = h
kept-IsConsistent addr (a, ok u) h = record {
  mode_ok = h.mode_ok;
  sink_ok = h.sink_ok;
  newest = h.newest;
  captured_ok = h.captured_ok;
  captures_ok = h.captures_ok;
}

bound-IsConsistent :
    (b s : Started) (c : ServerConfig) (a : App) → IsConsistent a → IsConsistent (bound b s c a).0
unfolding ensure_capture
bound-IsConsistent (err e) s c a h = h
bound-IsConsistent (ok u) s c a h =
    kept-IsConsistent (c.bind, c.port) (captured c (ensure_capture s a))
      (running-IsConsistent c (ensure_capture s a)
        (ensured-IsCaptured a.inner.capture_started s a refl h))

with_config-IsConsistent :
    (bind : Bind) (s : Started) (r : Result SetupError ServerConfig) (a : App)
    → IsConsistent a
    → IsConsistent (with_config bind s r a).0
with_config-IsConsistent bind s (err e) a h = h
with_config-IsConsistent bind s (ok c) a h =
    bound-IsConsistent (bind a.listening c.bind c.port) s c a h

hook_grab-IsConsistent : (on : Bool) (a : App) → IsConsistent a → IsConsistent (hook_grab on a)
unfolding hook_grab
hook_grab-IsConsistent on a h = record {
  mode_ok = h.mode_ok;
  sink_ok = h.sink_ok;
  newest = h.newest;
  captured_ok = h.captured_ok;
  captures_ok = h.captures_ok;
}

command-IsConsistent : (c : Command) (a : App) → IsConsistent a → IsConsistent (command c a)
unfolding command start_server start_client stop_inner
command-IsConsistent (start_as_server bind s display setup) a h =
    with_config-IsConsistent bind s (configure display setup) (stop_inner a)
      (stop_inner-IsConsistent a h)
command-IsConsistent (server_resumed bind s display setup) a h =
    with_config-IsConsistent bind s (configure display setup) a h
command-IsConsistent (start_as_client injector setup) a h =
    let g = stop_inner-IsConsistent a h in
    record {
      mode_ok = refl;
      sink_ok = g.sink_ok;
      newest = g.newest;
      captured_ok = λ e. absurd (cc e);
      captures_ok = g.captures_ok;
    }
command-IsConsistent stop a h = stop_inner-IsConsistent a h
command-IsConsistent task_ended a h = h
command-IsConsistent (grab_set on) a h = hook_grab-IsConsistent on a h

-- The rest of a start leaves the grab alone.
captured-grab : (c : ServerConfig) (r : App × Started) → (captured c r).0.grab ≡ r.0.grab
captured-grab c (a, ok u) = refl
captured-grab c (a, err e) = refl

with_config-grab :
    (bind : Bind) (s : Started) (r : Result SetupError ServerConfig) (a : App)
    → (with_config bind s r a).0.grab ≡ a.grab
unfolding ensure_capture
with_config-grab bind s r a = ground arith

command-grab :
    (c : Command) (cs : List Command) (a : App)
    → last_grab (command c a).grab cs ≡ last_grab a.grab (c ∷ cs)
unfolding command start_server start_client stop_inner hook_grab
command-grab (start_as_server bind s display setup) cs a =
    ap (λ (g : Bool). last_grab g cs)
      (with_config-grab bind s (configure display setup) (stop_inner a))
command-grab (server_resumed bind s display setup) cs a =
    ap (λ (g : Bool). last_grab g cs) (with_config-grab bind s (configure display setup) a)
command-grab (start_as_client injector setup) cs a = refl
command-grab stop cs a = refl
command-grab task_ended cs a = refl
command-grab (grab_set on) cs a = refl

commands_from :
    (cs : List Command) (a : App)
    → IsConsistent a
    → IsConsistent (commands cs a) × ((commands cs a).grab ≡ last_grab a.grab cs)
unfolding commands
commands_from [] a h = (h, refl)
commands_from (c ∷ cs) a h =
    let r = commands_from cs (command c a) (command-IsConsistent c a h) in
    (r.0, r.1 ∙ command-grab c cs a)

new_app-IsConsistent : IsConsistent new_app
unfolding new_app
new_app-IsConsistent = record {
  mode_ok = refl;
  sink_ok = refl;
  newest = λ channel e. absurd (cc e);
  captured_ok = λ e. absurd (cc e);
  captures_ok = refl;
}

-- Whatever commands come one after the other, with whatever answers of the system, also while the start of
-- a server waits for its address, whatever tasks end by themselves, and whenever the hooks of a server
-- are called, be it stopped or not: the mode is that of the handle that is kept, capture events go to
-- the channel of the server whose handle is kept, which is the newest, and to none without one, there
-- is such a handle only behind a capture thread, at most one such thread has been started, and the grab
-- is what the hooks asked for last, or off if a stop, a client's start or the beginning of a server's
-- has come since.
pub commands-IsConsistent :
    (cs : List Command)
    → IsConsistent (commands cs new_app) × ((commands cs new_app).grab ≡ last_grab false cs)
unfolding new_app
commands-IsConsistent cs = commands_from cs new_app new_app-IsConsistent
