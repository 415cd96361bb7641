-- ===== src/Core/Config.antt =====
-- crates/kvm-core/src/config.rs: the configurations of a server and of a client. Their JSON is the
-- serialisation library's.
use self_kvm.Common.{ℕ, [], ◌∷◌, Bool, false}
use self_kvm.Common.Int.{pos}
use self_kvm.Common.Map.{Name}
use self_kvm.Proto.Utf8.{Text}
use self_kvm.Core.Layout.{ScreenSize, ScreenLayout, screen_size, new_layout, add_screen}

pub record ServerConfig : Type 0 where
  pub bind : Text
  pub port : ℕ  -- u16
  pub local_screen : Name
  pub layout : ScreenLayout
  pub tls : Bool

pub record ClientConfig : Type 0 where
  pub server_addr : Text
  pub name : Name
  pub screen : ScreenSize
  pub tls : Bool

abbrev pub default_port : ℕ
default_port = 24800

-- `0.0.0.0`
abbrev pub default_bind : Text
default_bind = b'0' ∷ b'.' ∷ b'0' ∷ b'.' ∷ b'0' ∷ b'.' ∷ b'0' ∷ []

abbrev pub server_name : Name
server_name = b's' ∷ b'e' ∷ b'r' ∷ b'v' ∷ b'e' ∷ b'r' ∷ []

unfoldable pub default_server : ServerConfig
unfolding add_screen
default_server = record {
  bind = default_bind;
  port = default_port;
  local_screen = server_name;
  layout = add_screen new_layout server_name (screen_size (pos 1920) (pos 1080));
  tls = false;
}
