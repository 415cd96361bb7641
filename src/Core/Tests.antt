-- ===== src/Core/Tests.antt =====
-- A desk for the tests of crates/kvm-core: `mac`, where the server runs, with `win` to its right.
pub mod Routing
pub mod Visits
pub mod Places
pub mod Files
use self_kvm.Common.{
  ℕ, List, [], ◌∷◌, Bool, true, false, ◌≡◌, refl, Option, none, some, arith, ◌=l=◌, if◌then◌else◌,
  ◌≤◌, ◌<◌, ◌+◌,
}
use self_kvm.Common.Int.{ℤ, pos, negsuc}
use self_kvm.Common.Map.{Name, lookup, lookup-All}
use self_kvm.Core.Layout.{
  left, right, ScreenNode, ScreenLayout, screen_size, no_neighbors, new_layout, add_screen, link,
  set_neighbor,
}
use self_kvm.Core.Layout.Crossings.{IsLayout, IsScreen}
use self_kvm.Core.Server.{ServerMachine}
use self_kvm.Core.Client.{ClientMachine}

abbrev pub mac : Name
mac = b'm' ∷ b'a' ∷ b'c' ∷ []

abbrev pub win : Name
win = b'w' ∷ b'i' ∷ b'n' ∷ []

abbrev pub mac_node : ScreenNode
mac_node = record {
  size = screen_size (pos 1920) (pos 1080);
  neighbors = set_neighbor right (some win) no_neighbors;
}

abbrev pub win_node : ScreenNode
win_node = record {
  size = screen_size (pos 1280) (pos 720);
  neighbors = set_neighbor left (some mac) no_neighbors;
}

abbrev pub desk : ScreenLayout
desk = record { nodes = (mac, mac_node) ∷ (win, win_node) ∷ [] }

-- The desk is what the layout's own operations build.
desk_built :
    link
      (add_screen
        (add_screen new_layout mac (screen_size (pos 1920) (pos 1080)))
        win
        (screen_size (pos 1280) (pos 720)))
      mac
      right
      win
    ≡ desk
unfolding link add_screen
desk_built = refl

-- The server's cursor on `mac`, one pixel from the right border.
abbrev pub at_home : ServerMachine
at_home = record {
  layout = desk;
  local_screen = mac;
  active = mac;
  cursor_x = pos 1918;
  cursor_y = pos 540;
  modifiers = 0;
  seq = 0;
  switch_locked = false;
}

-- The server's cursor on the left border of `win`.
abbrev pub away : ServerMachine
away = record at_home { active = win; cursor_x = pos 0; cursor_y = pos 360; seq = 1 }

abbrev pub idle_client : ClientMachine
idle_client = record {
  name = win;
  screen = screen_size (pos 1280) (pos 720);
  acked = true;
  entered = false;
  last_seq = 0;
}

pub IsScreen-ok :
    (a b : ℕ)
    → 1 ≤ a
    → a < 2147483648
    → 1 ≤ b
    → b < 2147483648
    → IsScreen (screen_size (pos a) (pos b))
IsScreen-ok a b h i k l = record {
  w_i32 = omega arith;
  h_i32 = omega arith;
  w_pos = omega arith;
  h_pos = omega arith;
}

pub desk-IsLayout : IsLayout desk
desk-IsLayout k n e =
    lookup-All (λ (s : ScreenNode). IsScreen s.size) k n desk.nodes
      (
        IsScreen-ok 1920 1080 (omega arith) (omega arith) (omega arith) (omega arith),
        (IsScreen-ok 1280 720 (omega arith) (omega arith) (omega arith) (omega arith), tt),
      )
      e
