-- ===== src/Daemon/Client/Connect.antt =====
-- `ClientRuntime::run` of crates/kvm-daemon/src/client.rs: connecting, with TLS or without, and serving.
-- The server is its certificate and what it sends; the TLS library checks that it holds the key.
use self_kvm.Common.{
  ℕ, List, [], ◌∷◌, Bool, true, false, ◌≡◌, ◌≢◌, refl, All, some, Result, ok, err,
}
use self_kvm.Common.Int.{IsByte}
use self_kvm.Common.Map.{Name, lookup}
use self_kvm.Proto.Utf8.{Text}
use self_kvm.Proto.Message.{Message}
use self_kvm.Net.Transport.{NetError}
use self_kvm.Net.Trust.{Reason, Verdict, fingerprint}
use self_kvm.Net.TrustFile.{Disk, connect}
use self_kvm.Net.TrustFile.Pinned.{pins_of, verdict-pinned}
use self_kvm.Core.Config.{ClientConfig}
use self_kvm.Core.Client.{new}
use self_kvm.Daemon.Client.{ClientEffect, status, is_connecting, disconnected, no_tls, serve}
use self_kvm.Daemon.Client.Injection.{commands}

pub record Peer : Type 0 where
  pub cert : List ℕ
  pub sends : List Message
  pub ending : NetError

-- How a run ends early.
pub data RunError : Type 0 where
  no_connection : Name → RunError
  untrusted : Reason → RunError
  unsupported : RunError
  lost : NetError → RunError

pub record Ran : Type 0 where
  pub effects : List ClientEffect
  pub file : Disk
  pub result : Result RunError (Unit {0})

abbrev pub lifted : Result NetError (Unit {0}) → Result RunError (Unit {0})
lifted (ok u) = ok u
lifted (err e) = err (lost e)

abbrev pub stopped : Disk → RunError → Ran
stopped file e = record { effects = status is_connecting ∷ []; file = file; result = err e }

unfoldable pub serving : ClientConfig → Peer → Disk → Ran
unfolding serve new
serving config peer file =
    let r = serve (new config.name config.screen) peer.sends peer.ending in
    record { effects = status is_connecting ∷ r.0; file = file; result = lifted r.1 }

module _ (write : Text → Disk → Disk) (sha256 : List ℕ → List ℕ) where
  abbrev pub verified : ClientConfig → Peer → Disk × Verdict → Ran
  verified config peer (file, ok u) = serving config peer file
  verified config peer (file, err e) = stopped file (untrusted e)

  -- Whether TLS is asked for, and whether the program is built with it.
  abbrev pub secured : Bool → Bool → ClientConfig → Peer → Disk → Ran
  secured true true config peer file =
      verified config peer (connect write sha256 file config.server_addr peer.cert)
  secured true false config peer file = record {
    effects = status is_connecting ∷ status (disconnected no_tls) ∷ [];
    file = file;
    result = err unsupported;
  }
  secured false built config peer file = serving config peer file

  unfoldable pub client_run : Bool → Result Name (Unit {0}) → ClientConfig → Peer → Disk → Ran
  unfolding connect serving
  client_run built (err e) config peer file = stopped file (no_connection e)
  client_run built (ok u) config peer file = secured config.tls built config peer file

  module _ (writes : (t : Text) (file : Disk) → write t file ≡ some t)
      (digests : (c : List ℕ) → All IsByte (sha256 c)) where
    rejected :
        (config : ClientConfig) (peer : Peer) (r : Disk × Verdict)
        → r.1 ≢ ok tt
        → commands (verified config peer r).effects ≡ []
    rejected config peer (file, ok u) h = absurd (h refl)
    rejected config peer (file, err e) h = refl

    by_tls :
        (tls built : Bool) (config : ClientConfig) (peer : Peer) (file : Disk) (c : List ℕ)
        → tls ≡ true
        → lookup config.server_addr (pins_of file) ≡ some (fingerprint sha256 c)
        → sha256 peer.cert ≢ sha256 c
        → commands (secured tls built config peer file).effects ≡ []
    by_tls true true config peer file c t h n =
        rejected config peer (connect write sha256 file config.server_addr peer.cert) (λ e.
          n (
            (verdict-pinned write sha256 writes digests file config.server_addr c peer.cert h).0 e))
    by_tls true false config peer file c t h n = refl
    by_tls false built config peer file c t h n = absurd (cc t)

    -- A client that asks for TLS injects nothing of what a server sends whose certificate has not the
    -- digest that is pinned for its address, whether the program is built with TLS or not and whether
    -- there is a connection or not, provided that writes to the file succeed.
    pub client_run-pinned :
        (built : Bool) (tcp : Result Name (Unit {0})) (config : ClientConfig) (peer : Peer)
        (file : Disk) (c : List ℕ)
        → config.tls ≡ true
        → lookup config.server_addr (pins_of file) ≡ some (fingerprint sha256 c)
        → sha256 peer.cert ≢ sha256 c
        → commands (client_run built tcp config peer file).effects ≡ []
    unfolding client_run
    client_run-pinned built (err e) config peer file c t h n = refl
    client_run-pinned built (ok u) config peer file c t h n =
        by_tls config.tls built config peer file c t h n
