-- ===== src/Daemon/Main/Sound.antt =====
-- What crates/kvm-daemon/src/main.rs starts.
use self_kvm.Common.{ℕ, List, Option, none, some, ◌≡◌, refl, arith}
use self_kvm.Common.Int.{ℤ, pos}
use self_kvm.Common.Map.{lookup}
use self_kvm.Proto.Utf8.{Text}
use self_kvm.Core.Layout.{ScreenNode, new_layout, screen_size, add_screen}
use self_kvm.Core.Layout.Crossings.{IsLayout}
use self_kvm.Core.Layout.Sizes.{add_screen-IsLayout}
use self_kvm.Core.Config.{server_name, ServerConfig, default_server}
use self_kvm.Core.Server.Bounds.{IsSound}
use self_kvm.Core.Server.Resize.{found-resized, resized-IsLayout}
use self_kvm.Daemon.Server.{ServerEvent, start, run}
use self_kvm.Daemon.Server.Places.{AllSane, run-IsSound}
use self_kvm.Daemon.Main.{
  resolve_client_size, unwrap_or, server_config, config_or_default, with_bind, with_port,
  with_display,
}
use self_kvm.Input.Display.{Display, IsDisplay}

-- Each side of a client's screen is what was asked for, else what the display has, else a default.
pub resolve_client_size-sides :
    (display : Display) (width height : Option ℤ)
    → resolve_client_size display width height ≡ (
      unwrap_or width (elim display [ some d ↦ d.0 | none ↦ pos 1920 ]),
      unwrap_or height (elim display [ some d ↦ d.1 | none ↦ pos 1080 ]),
    )
unfolding resolve_client_size
resolve_client_size-sides display width height = ground arith

-- A configuration with pixels on its screens and the local one among them.
abbrev pub IsConfig : ServerConfig → Type 0
IsConfig c =
    IsLayout c.layout × ((n : ScreenNode) × (lookup c.local_screen c.layout.nodes ≡ some n))

abbrev pub IsFile : Option ServerConfig → Type 0
IsFile none = Unit {0}
IsFile (some c) = IsConfig c

default-IsConfig : IsConfig default_server
unfolding default_server add_screen
default-IsConfig = (
  add_screen-IsLayout new_layout server_name (screen_size (pos 1920) (pos 1080))
      (record {
        w_i32 = (omega arith, omega arith);
        h_i32 = (omega arith, omega arith);
        w_pos = omega arith;
        h_pos = omega arith;
      })
      (λ k n e. absurd (cc e)),
  (_, refl),
)

bind-IsConfig : (b : Option Text) (c : ServerConfig) → IsConfig c → IsConfig (with_bind b c)
bind-IsConfig none c h = h
bind-IsConfig (some b) c h = h

port-IsConfig : (p : Option ℕ) (c : ServerConfig) → IsConfig c → IsConfig (with_port p c)
port-IsConfig none c h = h
port-IsConfig (some p) c h = h

display-IsConfig :
    (d : Display) (c : ServerConfig) → IsDisplay d → IsConfig c → IsConfig (with_display d c)
display-IsConfig none c p h = h
display-IsConfig (some d) c p (wf, (n, e)) = (
  resized-IsLayout c.layout c.local_screen d.0 d.1 wf p,
  found-resized c.layout.nodes c.local_screen c.local_screen d.0 d.1 n e,
)

file-IsConfig : (f : Option ServerConfig) → IsFile f → IsConfig (config_or_default f)
file-IsConfig none h = default-IsConfig
file-IsConfig (some c) h = h

-- The server of the command line keeps its cursor on the screens of the layout: without a file, or with
-- one whose screens have pixels and which has the local screen, and with a display that has pixels if one
-- is found, then, whatever comes, as long as every client that connects reports at least one pixel
-- each way and is not that of the screen the cursor is on, the active screen is one of the layout and a
-- remote cursor on a pixel of it.
pub server_config-run :
    (d : Display) (f : Option ServerConfig) (b : Option Text) (p : Option ℕ)
    (evs : List ServerEvent)
    → IsDisplay d
    → IsFile f
    → AllSane (start (server_config d f b p).layout (server_config d f b p).local_screen) evs
    → IsSound
        (run
          (start (server_config d f b p).layout (server_config d f b p).local_screen)
          evs).0.machine
unfolding server_config
server_config-run d f b p evs hd hf k =
    let c = server_config d f b p in
    let (wf, (n, e)) =
      display-IsConfig d _ hd
        (port-IsConfig p _ (bind-IsConfig b (config_or_default f) (file-IsConfig f hf))) in
    run-IsSound c.layout c.local_screen n evs wf e k
