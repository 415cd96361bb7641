-- ===== src/Desk/Shell/Sound.antt =====
-- A server that src-tauri/src/lib.rs starts, run by crates/kvm-daemon/src/server.rs.
use self_kvm.Common.{
  List, ◌≡◌, refl, sym, ap, All, true, false, inl, inr, Option, none, some, Bool-cases, Result, ok,
}
use self_kvm.Common.Int.{IsI32}
use self_kvm.Common.Map.{Name, lookup}
use self_kvm.Core.Layout.{ScreenNode, ScreenLayout, contains}
use self_kvm.Core.Layout.Crossings.{IsLayout}
use self_kvm.Core.Config.{ServerConfig}
use self_kvm.Core.Server.Bounds.{IsSound}
use self_kvm.Core.Server.Resize.{found-resized, resized-IsLayout}
use self_kvm.Daemon.Server.{ServerEvent, start, run}
use self_kvm.Daemon.Server.Places.{AllSane, run-IsSound}
use self_kvm.Desk.Grid.{build_layout}
use self_kvm.Desk.Grid.Sizes.{build_layout-IsLayout}
use self_kvm.Desk.Shell.Setup.{ServerSetup, SetupError, configure, measured}
use self_kvm.Input.Display.{Display, IsDisplay}

measured-IsLayout :
    (d : Display) (k : Name) (l : ScreenLayout)
    → IsDisplay d
    → IsLayout l
    → IsLayout (measured d k l)
unfolding measured
measured-IsLayout none k l p h j n q = h j n q
measured-IsLayout (some d) k l p h j n q = resized-IsLayout l k d.0 d.1 h p j n q

measured-present :
    (d : Display) (k j : Name) (l : ScreenLayout) (n : ScreenNode)
    → lookup j l.nodes ≡ some n
    → (m : ScreenNode) × (lookup j (measured d k l).nodes ≡ some m)
unfolding measured
measured-present none k j l n e = (n, e)
measured-present (some d) k j l n e = found-resized l.nodes k j d.0 d.1 n e

has_node :
    (o : Option ScreenNode)
    → (elim o [ none ↦ false | some v ↦ true ]) ≡ true
    → (n : ScreenNode) × (o ≡ some n)
has_node none h = absurd (cc h)
has_node (some n) h = (n, refl)

contains-node :
    (l : ScreenLayout) (k : Name)
    → contains l k ≡ true
    → (n : ScreenNode) × (lookup k l.nodes ≡ some n)
unfolding contains
contains-node l k h = has_node (lookup k l.nodes) h

abbrev Configured : Type 0
Configured = Result SetupError ServerConfig

ok_eq : {c d : ServerConfig} → ◌≡◌ {A = Configured} (ok c) (ok d) → c ≡ d
ok_eq h = cc

IsConfigured : Display → ServerSetup → ServerConfig → Type 0
IsConfigured d s c =
    (c.local_screen ≡ s.local_screen)
    × (c.layout ≡ measured d s.local_screen (build_layout s.screens))
    × (contains (build_layout s.screens) s.local_screen ≡ true)

configure-IsConfigured :
    (d : Display) (s : ServerSetup) (c : ServerConfig) → configure d s ≡ ok c → IsConfigured d s c
unfolding configure IsConfigured
configure-IsConfigured d s c e =
    elim (Bool-cases (contains (build_layout s.screens) s.local_screen)) [
      | inl q ↦
          let r = ok_eq (rw q at e) in
          (ap (λ x. x.local_screen) (sym r), ap (λ x. x.layout) (sym r), q)
      | inr q ↦ absurd (cc (rw q at e))
    ]

-- A server that is started from a form keeps its cursor on the screens of the layout: when the form
-- passes the check, its sizes are i32s and a display that is found has pixels, then, whatever comes, as
-- long as every client that connects reports at least one pixel each way and is not that of the screen
-- the cursor is on, the active screen is one of the layout and a remote cursor on a pixel of it.
pub configure-run :
    (d : Display) (s : ServerSetup) (c : ServerConfig) (evs : List ServerEvent)
    → All (λ t. IsI32 t.w × IsI32 t.h) s.screens
    → IsDisplay d
    → configure d s ≡ ok c
    → AllSane (start c.layout c.local_screen) evs
    → IsSound (run (start c.layout c.local_screen) evs).0.machine
unfolding IsConfigured
configure-run d s c evs sizes p e k =
    let (q, r, t) = configure-IsConfigured d s c e in
    let (n, f) = contains-node (build_layout s.screens) s.local_screen t in
    let (m, g) = measured-present d s.local_screen s.local_screen (build_layout s.screens) n f in
    run-IsSound c.layout c.local_screen m evs
      (rw r (
        measured-IsLayout d s.local_screen (build_layout s.screens) p
          (build_layout-IsLayout s.screens sizes)))
      (rw (r, q) g) k
