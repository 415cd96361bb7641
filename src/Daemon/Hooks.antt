-- ===== src/Daemon/Hooks.antt =====
-- crates/kvm-daemon/src/hooks.rs, on the switch of crates/kvm-input/src/lib.rs.
pub mod Suppressed
use self_kvm.Common.{List, [], ◌∷◌, ◌++◌, Bool, true, false}
use self_kvm.Common.Int.{ℤ}
use self_kvm.Daemon.Server.{Effect, hook_grab, hook_warp}

pub record GrabSwitch : Type 0 where
  pub on : Bool

unfoldable pub new_switch : GrabSwitch
new_switch = record { on = false }

unfoldable pub set : GrabSwitch → Bool → GrabSwitch
set s on = record { on = on }

unfoldable pub enabled : GrabSwitch → Bool
enabled s = s.on

-- The hooks of a server that runs for real; both programs give them a warp that does nothing.
pub record LiveHooks : Type 0 where
  pub grab : GrabSwitch

unfoldable pub live_set_grab : LiveHooks → Bool → LiveHooks
unfolding set
live_set_grab h on = record { grab = set h.grab on }

-- What `RecordingHooks` has seen.
pub record HookLog : Type 0 where
  pub grabs : List Bool
  pub warps : List (ℤ × ℤ)

unfoldable pub log_set_grab : HookLog → Bool → HookLog
log_set_grab l on = record l { grabs = l.grabs ++ (on ∷ []) }

unfoldable pub log_warp_cursor : HookLog → ℤ → ℤ → HookLog
log_warp_cursor l x y = record l { warps = l.warps ++ ((x, y) ∷ []) }

-- The hooks behind a list of effects of the controller.
unfoldable pub play_live : LiveHooks → List Effect → LiveHooks
unfolding live_set_grab
play_live h [] = h
play_live h (hook_grab on ∷ es) = play_live (live_set_grab h on) es
play_live h (_ ∷ es) = play_live h es

unfoldable pub play_log : HookLog → List Effect → HookLog
unfolding log_set_grab log_warp_cursor
play_log l [] = l
play_log l (hook_grab on ∷ es) = play_log (log_set_grab l on) es
play_log l (hook_warp x y ∷ es) = play_log (log_warp_cursor l x y) es
play_log l (_ ∷ es) = play_log l es
