-- ===== src/Daemon/Tests/Runtime.antt =====
-- The controller, the handshake and the serve loop of crates/kvm-daemon on the desk of crates/kvm-core's
-- tests.
use self_kvm.Common.{List, [], ◌∷◌, ◌++◌, ◌≡◌, refl, arith, true, false, ok, All, ◌⊎◌}
use self_kvm.Common.Int.{pos, as_i16}
use self_kvm.Proto.Message.{
  Message, hello_back, device_info, keep_alive, mouse_move, info_ack, enter, close, mouse_down,
}
use self_kvm.Core.Events.{motion_abs, button_event}
use self_kvm.Core.Layout.{screen_size, contains}
use self_kvm.Core.Server
use self_kvm.Core.Server.{is_remote}
use self_kvm.Core.Server.Bounds.{IsSound}
use self_kvm.Core.Client.{new, handle_all}
use self_kvm.Net.Transport.{closed}
use self_kvm.Core.Tests.{mac, win, mac_node, desk, away, desk-IsLayout, IsScreen-ok}
use self_kvm.Daemon.Server.{
  Controller, ServerEvent, from_local, from_client, client_connected, client_disconnected,
  keep_alive_tick, start, run, step,
}
use self_kvm.Daemon.Server.Grabbing.{hooked, run-grab}
use self_kvm.Daemon.Server.Routes.{IsDelivered, step-IsDelivered}
use self_kvm.Daemon.Server.Places.{AllSane, run-IsSound}
use self_kvm.Daemon.Server.Handshake.{
  greet, greeting_of_server, replies, handle_client, greet-replies,
}
use self_kvm.Daemon.Server.Handshake.Visits.{IsVisit, IsStrange, handle_client-brackets}
use self_kvm.Daemon.Client.{serve}
use self_kvm.Daemon.Client.Injection.{commands, asked, serve-injects}

-- `win` connects, the cursor crosses over, `win` goes.
abbrev visit : List ServerEvent
visit =
    client_connected win (pos 1280) (pos 720) 4
    ∷ from_local (motion_abs (pos 1919) (pos 540))
    ∷ keep_alive_tick
    ∷ client_disconnected win
    ∷ []

run-grab_example :
    hooked false (run (start desk mac) visit).1 ≡ is_remote (run (start desk mac) visit).0.machine
run-grab_example = run-grab desk mac visit

visit_sane : AllSane (start desk mac) visit
unfolding start Server.new is_remote
visit_sane = (
  (IsScreen-ok 1280 720 (omega arith) (omega arith) (omega arith) (omega arith), λ r. ground arith),
  (tt, (tt, (tt, tt))),
)

run-IsSound_example : IsSound (run (start desk mac) visit).0.machine
run-IsSound_example = run-IsSound desk mac mac_node visit desk-IsLayout refl visit_sane

-- The cursor is on `win`, whose client has the queue 4.
abbrev visiting : Controller
visiting = record { machine = away; clients = (win, 4) ∷ []; clip_seq = 0 }

step-IsDelivered_example :
    All
      (IsDelivered ((win, 4) ∷ []) win (is_remote away))
      (step visiting (from_local (button_event (pos 1) true))).1
step-IsDelivered_example = step-IsDelivered visiting (from_local (button_event (pos 1) true))

greet-replies_example :
    (greet desk (
        replies (new win (screen_size (pos 1280) (pos 720))) greeting_of_server
        ++ (keep_alive ∷ []))
      ≡ (
        greeting_of_server,
        ok (record {
          name = win;
          w = as_i16 (pos 1280);
          h = as_i16 (pos 720);
          rest = keep_alive ∷ [];
        }),
      ))
    × ((handle_all (new win (screen_size (pos 1280) (pos 720))) greeting_of_server).acked ≡ true)
    × ((handle_all (new win (screen_size (pos 1280) (pos 720))) greeting_of_server).entered ≡ false)
unfolding contains
greet-replies_example =
    greet-replies desk win (screen_size (pos 1280) (pos 720)) (keep_alive ∷ []) refl

abbrev arrival : List Message
arrival =
    hello_back (pos 1) (pos 9) win
    ∷ device_info (pos 0) (pos 0) (pos 1280) (pos 720) (pos 0) (pos 640) (pos 360)
    ∷ keep_alive
    ∷ []

handle_client-brackets_example :
    ((handle_client desk 4 arrival ≡ []) × IsStrange desk arrival)
    ⊎ IsVisit desk 4 arrival (handle_client desk 4 arrival)
handle_client-brackets_example = handle_client-brackets desk 4 arrival

-- The client of `arrival` is seen, with the one message that follows.
arrival_seen :
    handle_client desk 4 arrival
    ≡ client_connected win (pos 1280) (pos 720) 4
      ∷ from_client win keep_alive
      ∷ client_disconnected win
      ∷ []
unfolding handle_client greet contains
arrival_seen = refl

abbrev talk : List Message
talk =
    info_ack
    ∷ enter (pos 0) (pos 360) 1 0
    ∷ mouse_move (pos 3) (pos 4)
    ∷ mouse_down (pos 1)
    ∷ close
    ∷ mouse_down (pos 1)
    ∷ []

serve-injects_example :
    commands (serve (new win (screen_size (pos 1280) (pos 720))) talk closed).0
    ≡ asked false false talk
serve-injects_example = serve-injects win (screen_size (pos 1280) (pos 720)) talk closed
