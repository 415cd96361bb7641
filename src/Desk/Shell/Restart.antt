-- ===== src/Desk/Shell/Restart.antt =====
-- Starting a server again in src-tauri/src/lib.rs.
use self_kvm.Common.{ℕ, List, ◌≡◌, ◌≢◌, refl, Result, ok, err}
use self_kvm.Proto.Utf8.{Text}
use self_kvm.Core.Config.{ServerConfig}
use self_kvm.Desk.Shell.Setup.{ServerSetup, configure}
use self_kvm.Desk.Shell.{
  App, Started, Bind, StartError, failed, stop_inner, ensure_capture, captured, kept, bound,
  start_server,
}
use mathlib.Core.List.{Memᴰ}
use self_kvm.Input.Display.{Display}

kept-listening :
    (addr : Text × ℕ) (r : App × Result StartError (Unit {0}))
    → (kept addr r).1 ≡ ok tt
    → Memᴰ addr (kept addr r).0.listening
kept-listening addr (a, ok u) h = Memᴰ.head refl
kept-listening addr (a, err e) h = absurd (cc h)

bound-listening :
    (b s : Started) (c : ServerConfig) (a : App)
    → (bound b s c a).1 ≡ ok tt
    → Memᴰ (c.bind, c.port) (bound b s c a).0.listening
bound-listening (err e) s c a h = absurd (cc h)
bound-listening (ok u) s c a h = kept-listening (c.bind, c.port) (captured c (ensure_capture s a)) h

-- A server that has been started and stopped cannot be started again on the same port: the address is
-- still listened on, and the answer is the error of the socket. This is so if binding an address that is
-- listened on, with a port other than 0, fails.
pub start_server-again :
    (bind : Bind) (capture : Started) (display : Display) (setup : ServerSetup) (c : ServerConfig)
    (a : App)
    → ((ls : List (Text × ℕ)) (addr : Text) (port : ℕ)
        → port ≢ 0
        → Memᴰ (addr, port) ls
        → (e : Text) × (bind ls addr port ≡ err e))
    → configure display setup ≡ ok c
    → c.port ≢ 0
    → (start_server bind capture display setup a).1 ≡ ok tt
    → (e : Text) × ((start_server bind capture display setup
          (stop_inner (start_server bind capture display setup a).0)).1
        ≡ err (failed e))
unfolding start_server stop_inner
start_server-again bind capture display setup c a used h p e =
    let first =
      bound-listening (bind a.listening c.bind c.port) capture c (stop_inner a) (rw h at e) in
    let (x, q) = used _ c.bind c.port p first in (x, rw (h, q) refl)
