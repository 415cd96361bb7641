-- ===== src/Net/Tests/Sessions.antt =====
-- What crates/kvm-net/src/transport.rs carries from the desk of the tests of Core to the screen `win`.
use self_kvm.Common.{[], suc, ◌≡◌, length, some, ok, refl}
use self_kvm.Common.Int
use self_kvm.Core.Layout
use self_kvm.Core.Server
use self_kvm.Core.Server.{new}
use self_kvm.Core.Tests.{desk, mac, win}
use self_kvm.Core.Tests.Visits.{walk, walk_typed}
use self_kvm.Net.Transport.{FramedWriter, eof, ending_error}
use self_kvm.Net.Wire.{sends, recv_all, working}
use self_kvm.Net.Wire.Session.{sent_to, run-received}

run-received_example :
    (w : FramedWriter) × (sends (working []) (sent_to win (new desk mac) walk) ≡ ok w)
    × (recv_all (suc (length w.written)) (record { inner = w.written; ending = eof })
        ≡ (sent_to win (new desk mac) walk, some (ending_error eof)))
run-received_example = run-received desk mac win walk eof walk_typed

-- The walk enters `win`, presses a key there and turns the wheel.
walk_sends : length (sent_to win (new desk mac) walk) ≡ 3
unfolding sent_to new Server.handle Server.track_modifiers Server.handle_local Server.handle_remote
    Server.try_cross Server.crossing_of Layout.detect_crossing Layout.edge_at Int.◌-ℤ◌ Server.cross
    Server.is_remote Int.as_i32 Int.◌/ℤ◌ Server.modifier_bit_for Server.send_active
walk_sends = refl
