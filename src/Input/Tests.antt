-- ===== src/Input/Tests.antt =====
-- crates/kvm-input on a keyboard with a few keys and coordinates that are integers.
use self_kvm.Common.{
  ℕ, List, [], ◌∷◌, none, some, Bool, true, false, ◌≡◌, refl, ◌↔◌, ◌⊎◌, ok, if◌then◌else◌,
}
use self_kvm.Common.Int.{ℤ, pos, ◌-ℤ◌}
use self_kvm.Core.Events.{LocalEvent}
use self_kvm.Core.Client.{ClientMachine}
use self_kvm.Core.Server.{is_remote}
use self_kvm.Core.Tests.{away, idle_client, desk, mac, win}
use self_kvm.Net.Transport.{closed}
use self_kvm.Daemon.Server.{ServerEvent, client_connected, from_local, start, run}
use self_kvm.Daemon.Hooks.Suppressed.{switch_after, callback-suppresses}
use self_kvm.Input.RdevKeys.{RKey, map_key}
use self_kvm.Input.Rdev.{Float, EventType, mouse_move, key_press, key_release, callback, capture}
use self_kvm.Input.Enigo.{Key, Call, key, press, release, Answer}
use self_kvm.Input.Enigo
use self_kvm.Input.KeyPath.{injected, injected-tells, one_side}
use self_kvm.Input.Pressed.{relay, relay-key}
use self_kvm.Input.Swallowed.{AllTurns, capture-AllTurns}

abbrev whole : Float
whole = record { F = ℤ; sub = λ a b. a -ℤ b; to_i32 = λ z. z }

-- A system that remembers the calls, the last one first.
abbrev recorded : Call → List Call → List Call × Answer
recorded c s = (c ∷ s, ok tt)

abbrev visitor : ClientMachine
visitor = record idle_client { entered = true }

relay-key_example :
    (relay whole none recorded away visitor closed (key_press RKey.shift_left) true none []
      ≡ key Key.shift press ∷ [])
    × (relay whole none recorded away visitor closed (key_release RKey.shift_left) true none []
        ≡ key Key.shift release ∷ [])
unfolding is_remote injected map_key Enigo.map_key
relay-key_example =
    relay-key whole none recorded away visitor closed RKey.shift_left Key.shift true none [] refl
      refl refl

injected-tells_example :
    (injected RKey.shift_left ≡ some Key.shift
      → injected RKey.shift_right ≡ some Key.shift
      → one_side RKey.shift_left ≡ one_side RKey.shift_right)
    × ((injected RKey.shift_right ≡ none)
        ↔ ((RKey.shift_right ≡ RKey.insert) ⊎ ((c : ℕ) × (RKey.shift_right ≡ RKey.unnamed c))))
injected-tells_example = injected-tells RKey.shift_left RKey.shift_right Key.shift

abbrev moves : List (Bool × EventType whole)
moves =
    (false, mouse_move (pos 5) (pos 5))
    ∷ (true, mouse_move (pos 7) (pos 5))
    ∷ (true, key_press RKey.key_a)
    ∷ []

capture-AllTurns_example :
    AllTurns whole (some (pos 9, pos 9)) [] moves (capture whole (some (pos 9, pos 9)) none moves)
capture-AllTurns_example = capture-AllTurns whole (some (pos 9, pos 9)) moves

abbrev visit : List ServerEvent
visit =
    client_connected win (pos 1280) (pos 720) 4
    ∷ from_local (LocalEvent.motion_abs (pos 1919) (pos 540))
    ∷ []

callback-suppresses_example :
    (callback whole none (switch_after desk mac visit) none (key_press RKey.key_a)).1 ≡ (
      if is_remote (run (start desk mac) visit).0.machine
      then none
      else some (key_press RKey.key_a))
callback-suppresses_example =
    callback-suppresses whole none none (key_press RKey.key_a) desk mac visit
