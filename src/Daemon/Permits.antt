-- ===== src/Daemon/Permits.antt =====
-- The accept loop of `serve_recv` in crates/kvm-daemon/src/file_transfer.rs, with its limit on
-- concurrent transfers. A transfer ends at any time, and gives its permit back.
use self_kvm.Common.{
  ℕ, ◌+◌, ◌-◌, ◌≤◌, ◌≡◌, refl, ◌↔◌, arith, List, [], ◌∷◌, Bool, true, false, length, if◌then◌else◌,
  ◌==◌,
}

abbrev pub max_concurrent_transfers : ℕ
max_concurrent_transfers = 8

-- The permits that are left, and the peers whose transfers run.
pub record Receiver : Type 0 where
  pub permits : ℕ
  pub running : List ℕ

unfoldable pub new_receiver : Receiver
new_receiver = record { permits = max_concurrent_transfers; running = [] }

pub data Arrival : Type 0 where
  accepted : (peer : ℕ) → Arrival
  accept_error : Arrival
  ended : (peer : ℕ) → Arrival

pub data Outcome : Type 0 where
  spawned dropped : (peer : ℕ) → Outcome
  nothing : Outcome

-- The transfer's own permit is released when it ends.
abbrev pub without : ℕ → List ℕ → List ℕ
without p [] = []
without p (q ∷ qs) = if p == q then qs else q ∷ without p qs

abbrev pub runs : ℕ → List ℕ → Bool
runs p [] = false
runs p (q ∷ qs) = if p == q then true else runs p qs

unfoldable pub arrive : Receiver → Arrival → Receiver × Outcome
arrive r (accepted p) =
    if r.permits == 0
    then (r, dropped p)
    else (record { permits = r.permits - 1; running = p ∷ r.running }, spawned p)
arrive r accept_error = (r, nothing)
arrive r (ended p) =
    if runs p r.running
    then (record { permits = r.permits + 1; running = without p r.running }, nothing)
    else (r, nothing)

unfoldable pub serve_recv : Receiver → List Arrival → Receiver × List Outcome
unfolding arrive
serve_recv r [] = (r, [])
serve_recv r (a ∷ as') =
    let s = arrive r a in let rest = serve_recv s.0 as' in (rest.0, s.1 ∷ rest.1)

length-without : (p : ℕ) (qs : List ℕ) → runs p qs ≡ true → length (without p qs) + 1 ≡ length qs
length-without p [] h = absurd (cc h)
length-without p (q ∷ qs) h = ground (arith, length-without p qs)

-- Every permit is free or with a transfer.
abbrev pub IsBounded : Receiver → Type 0
IsBounded r = r.permits + length r.running ≡ max_concurrent_transfers

arrive-IsBounded : (r : Receiver) (a : Arrival) → IsBounded r → IsBounded (arrive r a).0
unfolding arrive
arrive-IsBounded r (accepted p) h = ground arith
arrive-IsBounded r accept_error h = h
arrive-IsBounded r (ended p) h = ground (arith, length-without p r.running)

serve_recv-from : (r : Receiver) (as' : List Arrival) → IsBounded r → IsBounded (serve_recv r as').0
unfolding serve_recv
serve_recv-from r [] h = h
serve_recv-from r (a ∷ as') h = serve_recv-from (arrive r a).0 as' (arrive-IsBounded r a h)

-- However connections come and transfers end, at most eight transfers run at a time, and a connection that
-- comes then is dropped exactly if eight run.
pub serve_recv-bounded :
    (as' : List Arrival) (p : ℕ)
    → (length (serve_recv new_receiver as').0.running ≤ max_concurrent_transfers)
      × (((arrive (serve_recv new_receiver as').0 (accepted p)).1 ≡ dropped p)
          ↔ (length (serve_recv new_receiver as').0.running ≡ max_concurrent_transfers))
serve_recv-bounded as' p =
    let h = serve_recv-from new_receiver as' (unfold new_receiver in refl) in
    (omega (arith, h), dropped_iff (serve_recv new_receiver as').0 p h)
  where
    dropped_iff :
        (r : Receiver) (q : ℕ)
        → IsBounded r
        → ((arrive r (accepted q)).1 ≡ dropped q) ↔ (length r.running ≡ max_concurrent_transfers)
    dropped_iff r q h = unfold arrive in ground arith
