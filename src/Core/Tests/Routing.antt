-- ===== src/Core/Tests/Routing.antt =====
-- The machines of crates/kvm-core/src/server.rs and client.rs at work on the desk.
use self_kvm.Common.{List, [], ◌∷◌, true, false, ◌≡◌, refl, some, All, arith}
use self_kvm.Common.Int.{ℤ, pos, negsuc, ◌≤ℤ◌, ◌<ℤ◌}
use self_kvm.Proto.Message.{Message, enter, info_ack}
use self_kvm.Core.Events.{LocalEvent, motion_abs, motion_rel}
use self_kvm.Core.Layout.{ScreenNode, ScreenLayout, new_layout, screen_size}
use mathlib.Core.Path.{subst}
use self_kvm.Core.Layout.Crossings.{Inside}
use self_kvm.Common.Int
use self_kvm.Core.Layout
use self_kvm.Core.Server
use self_kvm.Core.Server.{
  ServerMachine, ServerAction, send, set_grab, warp_cursor, active_changed, is_remote, set_layout,
  go_home,
}
use self_kvm.Core.Server.Grab.{grab_after, set_layout-strands}
use self_kvm.Core.Server.Bounds.{IsSound}
use self_kvm.Core.Server.Home.{warps, handle-rests_home}
use self_kvm.Core.Server.Routing.{KeepsScreen, handle-locked}
use self_kvm.Core.Client.{handle_all}
use self_kvm.Core.Session.{messages_to, is_on, handle-focus}
use self_kvm.Core.Tests.{
  win, mac_node, win_node, at_home, away, idle_client, desk-IsLayout, IsScreen-ok,
}

abbrev to_the_edge : LocalEvent
to_the_edge = motion_abs (pos 1919) (pos 540)

abbrev back_left : LocalEvent
back_left = motion_rel (negsuc 4) (pos 0)

-- Onto `win`: a grab, an Enter and the news.
crossing_over :
    Server.handle at_home to_the_edge
    ≡ (away, set_grab true ∷ send win (enter (pos 0) (pos 360) 1 0) ∷ active_changed win ∷ [])
unfolding Server.handle is_remote Server.track_modifiers Server.handle_local Server.try_cross
    Server.crossing_of Layout.detect_crossing Layout.edge_at Int.as_i32 Int.◌-ℤ◌ Server.cross
    Layout.entry_point Int.as_i16 Layout.scale Layout.clamp Int.◌/ℤ◌ Int.◌*ℤ◌
crossing_over = refl

handle-focus_example :
    (handle_all idle_client (messages_to win (Server.handle at_home to_the_edge).1)).entered
    ≡ is_on win (Server.handle at_home to_the_edge).0
handle-focus_example = handle-focus win at_home idle_client to_the_edge (unfold is_on in refl)

found : (a b : ScreenNode) → some a ≡ some b → a ≡ b
found a b e = cc

on_win : Inside win_node.size (pos 0) (pos 360)
on_win = (omega arith, omega arith, omega arith, omega arith)

pub away-IsSound : IsSound away
unfolding is_remote
away-IsSound = record {
  placed = record {
    layout_ok = desk-IsLayout;
    home = mac_node;
    home_in = refl;
    node = win_node;
    active_in = refl;
  };
  inside = λ n r e.
      subst (λ (s : ScreenNode). Inside s.size (pos 0) (pos 360)) (found win_node n e) on_win;
}

handle-rests_home_example :
    (x : ℤ) × (y : ℤ) × (warps (Server.handle away back_left).1 ≡ (x, y) ∷ [])
    × (Server.handle (Server.handle away back_left).0 (motion_abs x y)
        ≡ ((Server.handle away back_left).0, []))
unfolding is_remote Server.handle Server.track_modifiers Server.handle_remote Server.try_cross
    Server.crossing_of Layout.detect_crossing Layout.edge_at Int.as_i32 Int.◌+ℤ◌ Server.cross
handle-rests_home_example =
    handle-rests_home mac_node
      (
        IsScreen-ok 1920 1080 (omega arith) (omega arith) (omega arith) (omega arith),
        omega arith,
        omega arith,
      )
      away back_left (refl, refl) refl

abbrev locked_away : ServerMachine
locked_away = record away { switch_locked = true }

handle-locked_example :
    ((Server.handle locked_away back_left).0.active ≡ win)
    × All KeepsScreen (Server.handle locked_away back_left).1
handle-locked_example = handle-locked locked_away back_left refl

set_layout-strands_example :
    (is_remote (set_layout away new_layout) ≡ false)
    × (grab_after true (go_home (set_layout away new_layout)).1 ≡ true)
unfolding is_remote
set_layout-strands_example = set_layout-strands true away new_layout refl refl

abbrev greeted : List Message
greeted = info_ack ∷ enter (pos 0) (pos 360) 1 0 ∷ []
