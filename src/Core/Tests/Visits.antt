-- ===== src/Core/Tests/Visits.antt =====
-- The cursor on the screen `win` of the desk of crates/kvm-core/src/server.rs, and its way home.
use self_kvm.Common.{List, [], ◌∷◌, arith, ◌≡◌, refl, All}
use self_kvm.Common.Int.{ℤ, pos, negsuc}
use self_kvm.Common.Int
use self_kvm.Core.Layout
use self_kvm.Core.Events.{LocalEvent, motion_abs, motion_rel, key_event, wheel, down, up, repeat}
use self_kvm.Core.Server.{ServerMachine, new, is_remote, handle}
use self_kvm.Core.Server
use self_kvm.Core.Server.Arrives.{pushes, pushes-cross}
use self_kvm.Core.Server.Held.{IsKeyless, motion-releases_no_key}
use self_kvm.Core.Server.Typed.{IsEvent, IsSendable, IsReadable, run-IsReadable}
use self_kvm.Proto.Keys.Key
use self_kvm.Core.Session.{server_run}
use self_kvm.Core.Tests.{desk, mac, mac_node, win_node, away}
use self_kvm.Core.Tests.Routing.{away-IsSound}

pushes-cross_example : (server_run away (pushes 1)).active ≡ mac
unfolding is_remote
pushes-cross_example =
    pushes-cross away mac win_node mac_node 0 away-IsSound refl refl refl refl refl refl

motion-releases_no_key_example :
    All IsKeyless (handle away (motion_rel (negsuc 4) (pos 0))).1
    × ((handle (handle away (motion_rel (negsuc 4) (pos 0))).0 (key_event 97 0 97 up)).1 ≡ [])
unfolding is_remote Server.handle Server.track_modifiers Server.handle_remote Server.try_cross
    Server.crossing_of Layout.detect_crossing Layout.edge_at Int.as_i32 Int.◌+ℤ◌ Server.cross
motion-releases_no_key_example = motion-releases_no_key away (negsuc 4) (pos 0) 97 0 97 up refl

abbrev pub walk : List LocalEvent
walk =
    motion_abs (pos 1919) (pos 500)
    ∷ key_event Key.shift_l 0 50 down
    ∷ wheel (pos 0) (negsuc 119)
    ∷ []

pub walk_typed : All IsEvent walk
walk_typed = (
  tt,
  (
    (omega arith, omega arith, omega arith, tt),
    (((omega arith, omega arith), (omega arith, omega arith)), tt),
  ),
)

run-IsReadable_example :
    All IsSendable (handle (server_run (new desk mac) walk) (key_event 65 1 38 (repeat 2))).1
    × All IsReadable (handle (server_run (new desk mac) walk) (key_event 65 1 38 (repeat 2))).1
run-IsReadable_example =
    run-IsReadable desk mac walk (key_event 65 1 38 (repeat 2)) walk_typed
      (omega arith, omega arith, omega arith, omega arith)
