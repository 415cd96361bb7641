-- ===== src/Daemon/Server/Handshake/Visits.antt =====
-- What the controller sees of a connection that goes through `handle_client` of
-- crates/kvm-daemon/src/server.rs.
use self_kvm.Common.{
  map, ap, List, [], ◌∷◌, ◌++◌, true, false, ◌≡◌, refl, arith, ◌⊎◌, inl, inr, Bool-cases, sym,
}
use mathlib.Core.Path.{subst}
use self_kvm.Common.Int.{ℤ}
use self_kvm.Common.Map.{Name}
use self_kvm.Proto.Utf8.{Text}
use self_kvm.Proto.Message.{Message, hello_back, device_info, protocol_major}
use self_kvm.Core.Layout.{ScreenLayout, contains}
use self_kvm.Daemon.Server.{
  Outbound, ServerEvent, client_connected, client_disconnected, from_client,
}
use self_kvm.Daemon.Server.Handshake.{
  Greeted, is_major, measure, admit, greet, pumped, events_of, handle_client,
}

-- The two messages by which a client introduces itself, with the protocol's major version.
abbrev pub introduction :
    (minor : ℤ) (name : Text) (x y w h warp mx my : ℤ) → List Message → List Message
introduction minor name x y w h warp mx my rest =
    hello_back protocol_major minor name ∷ device_info x y w h warp mx my ∷ rest

-- A connection on which a client of a screen of the layout introduces itself: what the controller sees
-- of it, in order, is the client with its size, every later message, and in the end that it is gone.
pub record IsVisit (layout : ScreenLayout) (tx : Outbound) (ms : List Message)
    (evs : List ServerEvent) : Type 0 where
  pub minor : ℤ
  pub name : Text
  pub x : ℤ
  pub y : ℤ
  pub w : ℤ
  pub h : ℤ
  pub warp : ℤ
  pub mx : ℤ
  pub my : ℤ
  pub rest : List Message
  pub introduced : ms ≡ introduction minor name x y w h warp mx my rest
  pub known : contains layout name ≡ true
  pub seen :
      evs
      ≡ (client_connected name w h tx ∷ [])
        ++ map (from_client name) rest
        ++ (client_disconnected name ∷ [])

-- No introduction of a client of a screen of the layout.
abbrev pub IsStrange : ScreenLayout → List Message → Type 0
IsStrange layout ms = ¬ (
    (minor : ℤ) × (name : Text) × (x : ℤ) × (y : ℤ) × (w : ℤ) × (h : ℤ) × (warp : ℤ) × (mx : ℤ)
    × (my : ℤ) × (rest : List Message) × (ms ≡ introduction minor name x y w h warp mx my rest)
    × (contains layout name ≡ true))

is_major-eq : (major : ℤ) → is_major major ≡ true → major ≡ protocol_major
is_major-eq major e = ground arith

pumped-map :
    (name : Name) (ms : List Message)
    → pumped name ms ≡ map (from_client name) ms ++ (client_disconnected name ∷ [])
pumped-map name [] = refl
pumped-map name (m ∷ ms) =
    ap (λ (x : List ServerEvent). from_client name m ∷ x) (pumped-map name ms)

abbrev Visits : ScreenLayout → Outbound → List Message → Greeted → Type 0
Visits layout tx ms g =
    ((events_of tx g.1 ≡ []) × IsStrange layout ms) ⊎ IsVisit layout tx ms (events_of tx g.1)

measure-Visits :
    (layout : ScreenLayout) (tx : Outbound) (minor : ℤ) (name : Name) (ms : List Message)
    → contains layout name ≡ true
    → Visits layout tx (hello_back protocol_major minor name ∷ ms) (measure name ms)
measure-Visits layout tx minor name [] k =
    inl (refl, λ (minor', name', x, y, w, h, warp, mx, my, rest, e, k'). ground arith)
measure-Visits layout tx minor name (device_info x y w h warp mx my ∷ ms) k = inr (record {
  minor = minor;
  name = name;
  x = x;
  y = y;
  w = w;
  h = h;
  warp = warp;
  mx = mx;
  my = my;
  rest = ms;
  introduced = refl;
  known = k;
  seen = ap (λ (e : List ServerEvent). client_connected name w h tx ∷ e) (pumped-map name ms);
})
measure-Visits layout tx minor name (m ∷ ms) k =
    inl (refl, λ (minor', name', x, y, w, h, warp, mx, my, rest, e, k'). ground arith)

major-IsStrange :
    (layout : ScreenLayout) (major minor : ℤ) (name : Name) (ms : List Message)
    → is_major major ≡ false
    → IsStrange layout (hello_back major minor name ∷ ms)
major-IsStrange layout major minor name ms n (minor', name', x, y, w, h, warp, mx, my, rest, e, k) =
    ground arith

name-IsStrange :
    (layout : ScreenLayout) (major minor : ℤ) (name : Name) (ms : List Message)
    → contains layout name ≡ false
    → IsStrange layout (hello_back major minor name ∷ ms)
name-IsStrange layout major minor name ms n (minor', name', x, y, w, h, warp, mx, my, rest, e, k) =
    let q : name ≡ name' = ground arith in cc (q, n, k)

admit-Visits :
    (layout : ScreenLayout) (tx : Outbound) (ms : List Message)
    → Visits layout tx ms (admit layout ms)
admit-Visits layout tx [] =
    inl (refl, λ (minor, name, x, y, w, h, warp, mx, my, rest, e, k). ground arith)
admit-Visits layout tx (hello_back major minor name ∷ ms) = elim (Bool-cases (is_major major)) [
  | inr a ↦ rw a (inl (refl, major-IsStrange layout major minor name ms a))
  | inl a ↦ elim (Bool-cases (contains layout name)) [
    | inr b ↦ rw (a, b) (inl (refl, name-IsStrange layout major minor name ms b))
    | inl b ↦
        rw (a, b)
          (subst (λ (j : ℤ). Visits layout tx (hello_back j minor name ∷ ms) (measure name ms))
            (sym (is_major-eq major a)) (measure-Visits layout tx minor name ms b))
  ]
]
admit-Visits layout tx (m ∷ ms) =
    inl (refl, λ (minor, name, x, y, w, h, warp, mx, my, rest, e, k). ground arith)

-- A connection shows itself to the controller exactly if its first two messages introduce a client of a
-- screen of the layout, with the major version of the server. What the controller then sees is that the
-- client connects with the size it gave, every message that follows, in order, and that it disconnects.
pub handle_client-brackets :
    (layout : ScreenLayout) (tx : Outbound) (ms : List Message)
    → ((handle_client layout tx ms ≡ []) × IsStrange layout ms)
      ⊎ IsVisit layout tx ms (handle_client layout tx ms)
unfolding handle_client greet
handle_client-brackets layout tx ms = admit-Visits layout tx ms
