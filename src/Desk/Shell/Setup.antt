-- ===== src/Desk/Shell/Setup.antt =====
-- What src-tauri/src/lib.rs makes of the forms that the frontend sends.
use self_kvm.Common.{ℕ, List, none, some, Bool, if◌then◌else◌, Result, ok, err}
use self_kvm.Common.Int.{ℤ, pos, max_ℤ}
use self_kvm.Common.Map.{Name, modify}
use self_kvm.Proto.Utf8.{Text}
use self_kvm.Core.Layout.{ScreenLayout, screen_size, contains}
use self_kvm.Core.Config.{ServerConfig, ClientConfig}
use self_kvm.Desk.Grid.{ScreenDto, build_layout}
use self_kvm.Input.Display.{Display}

pub record ServerSetup : Type 0 where
  pub bind : Text
  pub port : ℕ
  pub local_screen : Name
  pub screens : List ScreenDto
  pub tls : Bool

pub record ClientSetup : Type 0 where
  pub server_addr : Text
  pub name : Name
  pub width : ℤ
  pub height : ℤ
  pub tls : Bool

pub data SetupError : Type 0 where
  not_in_layout : Name → SetupError

-- The real size of the display replaces that of the local screen.
unfoldable pub measured : Display → Name → ScreenLayout → ScreenLayout
measured none screen l = l
measured (some d) screen l = record l {
  nodes = modify screen (λ n. record n { size = screen_size d.0 d.1 }) l.nodes;
}

-- `start_server` up to the configuration.
unfoldable pub configure : Display → ServerSetup → Result SetupError ServerConfig
unfolding measured build_layout contains
configure display s =
    let layout = build_layout s.screens in
    if contains layout s.local_screen
    then ok (record {
      bind = s.bind;
      port = s.port;
      local_screen = s.local_screen;
      layout = measured display s.local_screen layout;
      tls = s.tls;
    })
    else err (not_in_layout s.local_screen)

unfoldable pub client_config : ClientSetup → ClientConfig
unfolding max_ℤ
client_config s = record {
  server_addr = s.server_addr;
  name = s.name;
  screen = screen_size (max_ℤ s.width (pos 1)) (max_ℤ s.height (pos 1));
  tls = s.tls;
}
