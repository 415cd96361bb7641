-- ===== src/Daemon/Main.antt =====
-- crates/kvm-daemon/src/main.rs: the configurations that the command line makes. Parsing the command
-- line and reading the file are the libraries'.
pub mod Sound
use self_kvm.Common.{ℕ, List, Option, none, some, Bool, false}
use self_kvm.Common.Int.{ℤ, pos}
use self_kvm.Common.Map.{Name, modify}
use self_kvm.Proto.Utf8.{Text}
use self_kvm.Core.Layout.{ScreenLayout, screen_size}
use self_kvm.Core.Config.{ServerConfig, ClientConfig, default_server}
use self_kvm.Input.Display.{Display}

abbrev pub unwrap_or : Option ℤ → ℤ → ℤ
unwrap_or (some v) d = v
unwrap_or none d = d

abbrev pub detected : Option ℤ → Option ℤ → Display → ℤ × ℤ
detected width height (some d) = (unwrap_or width d.0, unwrap_or height d.1)
detected width height none = (unwrap_or width (pos 1920), unwrap_or height (pos 1080))

unfoldable pub resolve_client_size : Display → Option ℤ → Option ℤ → ℤ × ℤ
resolve_client_size display (some w) (some h) = (w, h)
resolve_client_size display width height = detected width height display

-- `run_client` up to the runtime.
unfoldable pub client_config : Display → Text → Name → Option ℤ → Option ℤ → ClientConfig
unfolding resolve_client_size
client_config display server name width height =
    let s = resolve_client_size display width height in
    record { server_addr = server; name = name; screen = screen_size s.0 s.1; tls = false }

abbrev pub config_or_default : Option ServerConfig → ServerConfig
config_or_default (some c) = c
config_or_default none = default_server

abbrev pub with_bind : Option Text → ServerConfig → ServerConfig
with_bind (some b) c = record c { bind = b }
with_bind none c = c

abbrev pub with_port : Option ℕ → ServerConfig → ServerConfig
with_port (some p) c = record c { port = p }
with_port none c = c

-- The display's size replaces that of the local screen, if the layout has it.
abbrev pub with_display : Display → ServerConfig → ServerConfig
with_display (some d) c = record c {
  layout = record (c.layout) {
    nodes = modify c.local_screen (λ n. record n { size = screen_size d.0 d.1 }) c.layout.nodes;
  };
}
with_display none c = c

-- `run_server` up to the runtime.
unfoldable pub server_config : Display → Option ServerConfig → Option Text → Option ℕ → ServerConfig
server_config display config bind port =
    with_display display (with_port port (with_bind bind (config_or_default config)))
