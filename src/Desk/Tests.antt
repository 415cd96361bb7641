-- ===== src/Desk/Tests.antt =====
-- src-tauri/src/lib.rs on a form with two screens beside each other.
use self_kvm.Common.{
  ◌++◌, ℕ, List, [], ◌∷◌, none, some, true, false, ◌≡◌, refl, sym, ◌↔◌, arith, All, ok, err,
  =l=_iff,
}
use self_kvm.Common.Int.{ℤ, pos, IsI32}
use self_kvm.Common.Int
use self_kvm.Proto.Utf8.{Text}
use self_kvm.Core.Layout.{right}
use self_kvm.Core.Layout
use self_kvm.Core.Layout.Links.{next_to}
use self_kvm.Core.Config.{ServerConfig}
use self_kvm.Core.Server.Bounds.{IsSound}
use self_kvm.Core.Tests.{mac, win, desk}
use self_kvm.Daemon.Server.{start, run, ServerEvent, from_local, keep_alive_tick}
use self_kvm.Core.Events.{motion_abs}
use self_kvm.Desk.Grid.{ScreenDto, build_layout}
use self_kvm.Desk.Grid.Cells.{Borders, IsGrid}
use self_kvm.Desk.Grid.Built.{build_layout-Borders}
use self_kvm.Desk.Shell.Setup.{ServerSetup, configure}
use self_kvm.Desk.Shell.Sound.{configure-run}
use self_kvm.Desk.Shell.{new_app, Bind, start_server, hook_grab, stop_inner, failed, ensure_capture}
use self_kvm.Desk.Shell.Consistent.{
  Command, start_as_server, stop, grab_set, commands, command, last_grab, IsConsistent,
  commands-IsConsistent,
}
use self_kvm.Desk.Shell.Restart.{start_server-again}
use mathlib.Core.List.{Memᴰ}

abbrev mac_cell : ScreenDto
mac_cell = record { name = mac; w = pos 1920; h = pos 1080; col = pos 0; row = pos 0 }

abbrev win_cell : ScreenDto
win_cell = record { name = win; w = pos 1280; h = pos 720; col = pos 1; row = pos 0 }

abbrev cells : List ScreenDto
cells = mac_cell ∷ win_cell ∷ []

-- The grid gives the layout that the operations of the layout build.
cells_built : build_layout cells ≡ desk
unfolding build_layout Int.as_i32 Int.◌+ℤ◌ Layout.link Layout.add_screen
cells_built = refl

-- What holds of both screens holds of every screen of the grid.
each :
    (P : ScreenDto → ScreenDto → Type 0)
    → P mac_cell mac_cell
    → P mac_cell win_cell
    → P win_cell mac_cell
    → P win_cell win_cell
    → (s t : ScreenDto) → Memᴰ s cells
    → Memᴰ t cells
    → P s t
each P a b c d s t (Memᴰ.head e) (Memᴰ.head f) = rw (e, f) a
each P a b c d s t (Memᴰ.head e) (Memᴰ.tail (Memᴰ.head f)) = rw (e, f) b
each P a b c d s t (Memᴰ.tail (Memᴰ.head e)) (Memᴰ.head f) = rw (e, f) c
each P a b c d s t (Memᴰ.tail (Memᴰ.head e)) (Memᴰ.tail (Memᴰ.head f)) = rw (e, f) d
each P a b c d s t (Memᴰ.tail (Memᴰ.tail m)) k = elim m [ ]
each P a b c d s t (Memᴰ.head e) (Memᴰ.tail (Memᴰ.tail k)) = elim k [ ]
each P a b c d s t (Memᴰ.tail (Memᴰ.head e)) (Memᴰ.tail (Memᴰ.tail k)) = elim k [ ]

names_differ : mac ≡ win → ⊥
names_differ e = ground (arith, =l=_iff mac win)

zero_one : pos 0 ≡ pos 1 → ⊥
zero_one e = ground arith

cells-IsGrid : IsGrid cells
cells-IsGrid = record {
  cells_i32 = λ s m.
      each (λ a b. IsI32 a.col × IsI32 a.row)
        ((omega arith, omega arith), (omega arith, omega arith))
        ((omega arith, omega arith), (omega arith, omega arith))
        ((omega arith, omega arith), (omega arith, omega arith))
        ((omega arith, omega arith), (omega arith, omega arith)) s s m m;
  names =
      each (λ a b. a.name ≡ b.name → a ≡ b) (λ e. refl) (λ e. absurd (names_differ e))
        (λ e. absurd (names_differ (sym e))) (λ e. refl);
  places =
      each (λ a b. a.col ≡ b.col → a.row ≡ b.row → a ≡ b) (λ e f. refl) (λ e f. absurd (zero_one e))
        (λ e f. absurd (zero_one (sym e))) (λ e f. refl);
}

build_layout-Borders_example :
    (next_to (build_layout cells) mac right ≡ some win)
    ↔ ((t : ScreenDto) × Memᴰ t cells × Borders right mac_cell t × (win ≡ t.name))
build_layout-Borders_example =
    build_layout-Borders cells cells-IsGrid mac_cell right win (Memᴰ.head refl)

abbrev form : ServerSetup
form = record { bind = []; port = 24800; local_screen = mac; screens = cells; tls = false }

abbrev formed : ServerConfig
formed = record { bind = []; port = 24800; local_screen = mac; layout = desk; tls = false }

form_configures : configure none form ≡ ok formed
unfolding configure Int.as_i32 Int.◌+ℤ◌ Layout.link Layout.add_screen
form_configures = refl

abbrev day : List ServerEvent
day = from_local (motion_abs (pos 1919) (pos 540)) ∷ keep_alive_tick ∷ []

configure-run_example : IsSound (run (start desk mac) day).0.machine
configure-run_example = configure-run none form formed day sizes tt form_configures (tt, (tt, tt))
  where
    sizes : All (λ (t : ScreenDto). IsI32 t.w × IsI32 t.h) cells
    sizes = (
      ((omega arith, omega arith), (omega arith, omega arith)),
      (((omega arith, omega arith), (omega arith, omega arith)), tt),
    )

-- A system on which one address can be listened on.
abbrev once : Bind
once [] addr port = ok tt
once (l ∷ ls) addr port = err []

abbrev clicks : List Command
clicks = start_as_server once (ok tt) none form ∷ grab_set true ∷ stop ∷ []

commands-IsConsistent_example :
    IsConsistent (commands clicks new_app)
    × ((commands clicks new_app).grab ≡ last_grab false clicks)
commands-IsConsistent_example = commands-IsConsistent clicks

-- A call of the hooks that the stopped server still makes leaves the grab on, with no server to serve.
late_grab :
    ((commands (clicks ++ (grab_set true ∷ [])) new_app).grab ≡ true)
    × ((commands (clicks ++ (grab_set true ∷ [])) new_app).sink ≡ none)
unfolding commands command start_server stop_inner hook_grab new_app ensure_capture
late_grab = (refl, refl)

form_starts : (start_server once (ok tt) none form new_app).1 ≡ ok tt
unfolding start_server new_app stop_inner ensure_capture Int.as_i32 Int.◌+ℤ◌ Layout.link
    Layout.add_screen
form_starts = refl

start_server-again_example :
    (e : Text) × ((start_server once
        (ok tt)
        none
        form
        (stop_inner (start_server once (ok tt) none form new_app).0)).1
      ≡ err (failed e))
start_server-again_example =
    start_server-again once (ok tt) none form formed new_app
      (λ ls addr port n m. taken ls addr port m) form_configures (λ e. absurd (ne e)) form_starts
  where
    taken :
        (ls : List (Text × ℕ)) (addr : Text) (port : ℕ)
        → Memᴰ (addr, port) ls
        → (e : Text) × (once ls addr port ≡ err e)
    taken [] addr port m = elim m [ ]
    taken (l ∷ ls) addr port m = ([], refl)

    ne : ◌≡◌ {A = ℕ} 24800 0 → ⊥
    ne e = ground arith
