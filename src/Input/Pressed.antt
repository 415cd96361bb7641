-- ===== src/Input/Pressed.antt =====
-- A key on its way: the capture backend of the server's machine, crates/kvm-core/src/server.rs, the
-- serve loop of crates/kvm-daemon/src/client.rs and the injection backend of the client's machine.
use self_kvm.Common.{
  ℕ, List, [], ◌∷◌, ◌++◌, Option, some, Bool, true, ◌≡◌, refl, =l=_refl, ◌∙◌, Option-cases, inl,
  inr,
}
use self_kvm.Core.Events.{LocalEvent, KeyAction, down, up, repeat, key_event, key_command}
use self_kvm.Core.Client.{ClientMachine}
use self_kvm.Core.Server.{
  ServerMachine, ServerAction, is_remote, handle, handle_remote, send_active, track_modifiers,
  key_message,
}
use self_kvm.Core.Session.{messages_to}
use self_kvm.Net.Transport.{NetError}
use self_kvm.Daemon.Client.{serve}
use self_kvm.Daemon.Client.Injection.{commands, serve-asked}
use self_kvm.Input.RdevKeys.{RKey, map_key}
use self_kvm.Input.Rdev.{Float, EventType, key_press, key_release, Point, translate, key_events}
use self_kvm.Input.Enigo.{Key, Call, key, press, release, Answer, inject_all, inject, key_direction}
use self_kvm.Input.Enigo
use self_kvm.Input.KeyPath.{injected}

-- The actions for a list of events.
unfoldable pub handle_events : ServerMachine → List LocalEvent → List ServerAction
unfolding handle
handle_events m [] = []
handle_events m (ev ∷ evs) = let r = handle m ev in r.1 ++ handle_events r.0 evs

handle-key_event :
    (m : ServerMachine) (id mask b : ℕ) (a : KeyAction)
    → is_remote m ≡ true
    → messages_to m.active (handle_events m (key_event id mask b a ∷ []))
      ≡ key_message a id mask b ∷ []
unfolding handle_events handle handle_remote send_active track_modifiers is_remote
handle-key_event m id mask b a h = rw (h, =l=_refl) refl

serve-key_message :
    (c : ClientMachine) (id mask b : ℕ) (a : KeyAction) (end : NetError)
    → c.entered ≡ true
    → commands (serve c (key_message a id mask b ∷ []) end).0 ≡ key_command id mask b a ∷ []
serve-key_message c id mask b down end h = serve-asked c _ end ∙ rw h refl
serve-key_message c id mask b up end h = serve-asked c _ end ∙ rw h refl
serve-key_message c id mask b (repeat n) end h = serve-asked c _ end ∙ rw h refl

module _ (f : Float) (center : Option (Point f)) {Os : Type 0}
    (call : Call → Os → Os × Answer) where
  -- What an event of the server's system does to the client's system, before the connection ends.
  unfoldable pub relay :
      ServerMachine → ClientMachine → NetError → EventType f → Bool → Option (Point f) → Os → Os
  unfolding handle_events translate serve inject_all
  relay m c end ev grabbing lp s =
      let sunk = (translate f center ev grabbing lp).sunk in
      let sent = messages_to m.active (handle_events m sunk) in
      inject_all call (commands (serve c sent end).0) s

  inject_all-key :
      (id : ℕ) (u : Key) (a : KeyAction) (s : Os)
      → Enigo.map_key id ≡ some u
      → inject_all call (key_command id 0 id a ∷ []) s ≡ (call (key u (key_direction a)) s).0
  unfolding inject_all inject
  inject_all-key id u a s h = rw (inject_all, h) refl

  relay-event :
      (m : ServerMachine) (c : ClientMachine) (end : NetError) (id : ℕ) (u : Key) (a : KeyAction)
      (s : Os)
      → is_remote m ≡ true
      → c.entered ≡ true
      → Enigo.map_key id ≡ some u
      → inject_all call
          (commands
            (serve c (messages_to m.active (handle_events m (key_event id 0 id a ∷ []))) end).0)
          s
        ≡ (call (key u (key_direction a)) s).0
  relay-event m c end id u a s hr he hu =
      rw (handle-key_event m id 0 id a hr, serve-key_message c id 0 id a end he)
        (inject_all-key id u a s hu)

  relay-keys :
      (m : ServerMachine) (c : ClientMachine) (end : NetError) (k : RKey) (u : Key) (a : KeyAction)
      (s : Os)
      → is_remote m ≡ true
      → c.entered ≡ true
      → injected k ≡ some u
      → inject_all call
          (commands
            (serve c (messages_to m.active (handle_events m (key_events f a (map_key k)))) end).0)
          s
        ≡ (call (key u (key_direction a)) s).0
  unfolding injected
  relay-keys m c end k u a s hr he hu = elim (Option-cases (map_key k)) [
    | inl e ↦ absurd (cc (rw e at hu))
    | inr (id, e) ↦ rw e (relay-event m c end id u a s hr he (rw e at hu))
  ]

  -- While the cursor is on a remote screen and its client has been entered, a key that the injection
  -- backend knows is pressed there when it is pressed here, and released when it is released; nothing
  -- else is injected.
  pub relay-key :
      (m : ServerMachine) (c : ClientMachine) (end : NetError) (k : RKey) (u : Key)
      (grabbing : Bool) (lp : Option (Point f)) (s : Os)
      → is_remote m ≡ true
      → c.entered ≡ true
      → injected k ≡ some u
      → (relay m c end (key_press k) grabbing lp s ≡ (call (key u press) s).0)
        × (relay m c end (key_release k) grabbing lp s ≡ (call (key u release) s).0)
  unfolding relay translate
  relay-key m c end k u grabbing lp s hr he hk =
      (relay-keys m c end k u down s hr he hk, relay-keys m c end k u up s hr he hk)
