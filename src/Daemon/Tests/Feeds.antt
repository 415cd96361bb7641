-- ===== src/Daemon/Tests/Feeds.antt =====
-- Sources, connections and clipboards of crates/kvm-daemon on small inputs.
use self_kvm.Common.{
  ℕ, suc, zero, ◌≤◌, List, [], ◌∷◌, some, true, ◌≡◌, refl, ◌↔◌, arith, All, Result, ok, length,
}
use self_kvm.Proto.Utf8.{Text}
use self_kvm.Common.Map.{Name}
use self_kvm.Common.Int.{pos}
use self_kvm.Core.Config.{ClientConfig}
use self_kvm.Core.Layout.{screen_size}
use self_kvm.Core.Tests.{win}
use self_kvm.Proto.Message.{enter, key_down}
use self_kvm.Net.Transport.{IoError, closed}
use self_kvm.Net.Tests.Pins.{save, digest, digest_bytes, studio}
use self_kvm.Net.Trust.{fingerprint}
use self_kvm.Net.TrustFile.{Disk, load, body}
use self_kvm.Daemon.Client.Injection.{commands}
use self_kvm.Daemon.Client.Connect.{Peer, client_run, client_run-pinned}
use self_kvm.Daemon.Send.{send_loop}
use self_kvm.Daemon.Fill.{fill, stream_loop}
use self_kvm.Daemon.Fill.Reads.{
  IsFilled, fill-IsFilled, IsStreamed, lifted, stream_loop-send_loop, IsRead,
}
use self_kvm.Daemon.Clipboard.{spawn}
use self_kvm.Daemon.Clipboard.Echo.{Happening, copied, rounded, copies, happen, happen-copied}
use self_kvm.Daemon.Permits.{
  Arrival, accepted, accept_error, ended, serve_recv, new_receiver, arrive, dropped,
  max_concurrent_transfers, serve_recv-bounded,
}
use mathlib.Core.List.{Memᴰ}

-- A source that gives one byte at a time.
abbrev dribble : List ℕ → ℕ → Result IoError (List ℕ) × List ℕ
dribble r zero = (ok [], r)
dribble [] (suc n) = (ok [], [])
dribble (b ∷ bs) (suc n) = (ok (b ∷ []), bs)

abbrev whole : List ℕ → List ℕ
whole r = r

dribble-IsRead : (r : List ℕ) (n : ℕ) → IsRead dribble whole n r (dribble r n)
dribble-IsRead r zero = (refl, omega arith, λ h e. absurd (h refl))
dribble-IsRead [] (suc n) = (refl, omega arith, λ h e. refl)
dribble-IsRead (b ∷ bs) (suc n) = (refl, omega arith, λ h e. absurd (cc e))

abbrev five : List ℕ
five = 1 ∷ 2 ∷ 3 ∷ 4 ∷ 5 ∷ []

fill-IsFilled_example : IsFilled dribble whole 3 five (fill dribble five 3)
fill-IsFilled_example = fill-IsFilled dribble whole dribble-IsRead five 3

stream_loop-send_loop_example :
    IsStreamed dribble whole
      (lifted dribble whole (send_loop 5 7 2 0 0 five))
      (stream_loop dribble 5 7 2 0 0 five)
stream_loop-send_loop_example =
    stream_loop-send_loop dribble whole dribble-IsRead 5 7 2 0 0 five (omega arith) (omega arith)

abbrev config : ClientConfig
config = record {
  server_addr = studio;
  name = win;
  screen = screen_size (pos 1280) (pos 720);
  tls = true;
}

-- A server with another certificate than the one that is pinned.
abbrev impostor : Peer
impostor = record {
  cert = 7 ∷ 7 ∷ [];
  sends = enter (pos 0) (pos 0) 1 0 ∷ key_down 97 0 97 ∷ [];
  ending = closed;
}

abbrev pub pinned : Disk
pinned = some (body ((studio, fingerprint digest (7 ∷ [])) ∷ []))

client_run-pinned_example :
    commands (client_run save digest true (ok tt) config impostor pinned).effects ≡ []
unfolding load body fingerprint
client_run-pinned_example =
    client_run-pinned save digest (λ t file. refl) digest_bytes true (ok tt) config impostor pinned
      (7 ∷ []) refl refl (λ e. absurd (differ e))
  where
    differ : ◌≡◌ {A = List ℕ} (2 ∷ []) (1 ∷ []) → ⊥
    differ e = ground arith

-- A clipboard that works.
abbrev paste : Text → Result Name Text
paste s = ok s

abbrev copy : Text → Text → Text × Result Name (Unit {0})
copy t s = (t, ok tt)

abbrev day : List Happening
day = copied win ∷ rounded [] ∷ rounded (studio ∷ []) ∷ rounded [] ∷ []

happen-copied_example : All (λ t. Memᴰ t (copies day)) (happen paste copy (spawn paste copy []) day)
happen-copied_example = happen-copied paste copy (λ t os. refl) [] day

-- Nothing but what was copied is sent.
day_sends : happen paste copy (spawn paste copy []) day ≡ win ∷ []
unfolding happen spawn
day_sends = refl

abbrev rush : List Arrival
rush = accepted 1 ∷ accepted 2 ∷ accept_error ∷ ended 1 ∷ accepted 3 ∷ []

serve_recv-bounded_example :
    (length (serve_recv new_receiver rush).0.running ≤ max_concurrent_transfers)
    × (((arrive (serve_recv new_receiver rush).0 (accepted 9)).1 ≡ dropped 9)
        ↔ (length (serve_recv new_receiver rush).0.running ≡ max_concurrent_transfers))
serve_recv-bounded_example = serve_recv-bounded rush 9
