-- ===== src/Input/KeyPath.antt =====
-- A key that is captured on one machine and injected on another.
use self_kvm.Common.{ℕ, ◌≡◌, sym, ◌↔◌, ◌⊎◌, Option, none, some, ◌==◌, if◌then◌else◌, arith}
use mathlib.Core.Option
use self_kvm.Core.Layout.{◌>>=◌}
use self_kvm.Input.RdevKeys.{RKey, map_key}
use self_kvm.Input.Enigo.{Key}
use self_kvm.Input.Enigo

-- What the injection backend presses for a key that the capture backend sees.
unfoldable pub injected : RKey → Option Key
unfolding map_key Enigo.map_key
injected k = map_key k >>= Enigo.map_key

-- Left and right modifiers are one key to the injection backend.
abbrev pub one_side : RKey → RKey
one_side RKey.shift_right = RKey.shift_left
one_side RKey.control_right = RKey.control_left
one_side RKey.alt_gr = RKey.alt
one_side RKey.meta_right = RKey.meta_left
one_side k = k

char_key : ℕ → RKey
char_key c =
    if c == 0x61
    then RKey.key_a
    else if c == 0x62
    then RKey.key_b
    else if c == 0x63
    then RKey.key_c
    else if c == 0x64
    then RKey.key_d
    else if c == 0x65
    then RKey.key_e
    else if c == 0x66
    then RKey.key_f
    else if c == 0x67
    then RKey.key_g
    else if c == 0x68
    then RKey.key_h
    else if c == 0x69
    then RKey.key_i
    else if c == 0x6a
    then RKey.key_j
    else if c == 0x6b
    then RKey.key_k
    else if c == 0x6c
    then RKey.key_l
    else if c == 0x6d
    then RKey.key_m
    else if c == 0x6e
    then RKey.key_n
    else if c == 0x6f
    then RKey.key_o
    else if c == 0x70
    then RKey.key_p
    else if c == 0x71
    then RKey.key_q
    else if c == 0x72
    then RKey.key_r
    else if c == 0x73
    then RKey.key_s
    else if c == 0x74
    then RKey.key_t
    else if c == 0x75
    then RKey.key_u
    else if c == 0x76
    then RKey.key_v
    else if c == 0x77
    then RKey.key_w
    else if c == 0x78
    then RKey.key_x
    else if c == 0x79
    then RKey.key_y
    else if c == 0x7a
    then RKey.key_z
    else if c == 0x30
    then RKey.num0
    else if c == 0x31
    then RKey.num1
    else if c == 0x32
    then RKey.num2
    else if c == 0x33
    then RKey.num3
    else if c == 0x34
    then RKey.num4
    else if c == 0x35
    then RKey.num5
    else if c == 0x36
    then RKey.num6
    else if c == 0x37
    then RKey.num7
    else if c == 0x38
    then RKey.num8
    else if c == 0x39
    then RKey.num9
    else if c == 0x20
    then RKey.space
    else if c == 0x2d
    then RKey.minus
    else if c == 0x3d
    then RKey.equal
    else if c == 0x5b
    then RKey.left_bracket
    else if c == 0x5d
    then RKey.right_bracket
    else if c == 0x3b
    then RKey.semi_colon
    else if c == 0x27
    then RKey.quote
    else if c == 0x5c
    then RKey.back_slash
    else if c == 0x2c
    then RKey.comma
    else if c == 0x2e
    then RKey.dot
    else if c == 0x2f
    then RKey.slash
    else if c == 0x60
    then RKey.back_quote
    else RKey.unnamed c

key_at : Key → RKey
key_at (Key.unicode c) = char_key c
key_at Key.backspace = RKey.backspace
key_at Key.tab = RKey.tab
key_at Key.return = RKey.return
key_at Key.escape = RKey.escape
key_at Key.delete = RKey.delete
key_at Key.home = RKey.home
key_at Key.end = RKey.end
key_at Key.page_up = RKey.page_up
key_at Key.page_down = RKey.page_down
key_at Key.left_arrow = RKey.left_arrow
key_at Key.right_arrow = RKey.right_arrow
key_at Key.up_arrow = RKey.up_arrow
key_at Key.down_arrow = RKey.down_arrow
key_at Key.shift = RKey.shift_left
key_at Key.control = RKey.control_left
key_at Key.alt = RKey.alt
key_at Key.meta = RKey.meta_left
key_at Key.caps_lock = RKey.caps_lock
key_at Key.f1 = RKey.f1
key_at Key.f2 = RKey.f2
key_at Key.f3 = RKey.f3
key_at Key.f4 = RKey.f4
key_at Key.f5 = RKey.f5
key_at Key.f6 = RKey.f6
key_at Key.f7 = RKey.f7
key_at Key.f8 = RKey.f8
key_at Key.f9 = RKey.f9
key_at Key.f10 = RKey.f10
key_at Key.f11 = RKey.f11
key_at Key.f12 = RKey.f12

abbrev pub told : RKey → Option RKey
told RKey.insert = none
told (RKey.unnamed c) = none
told k = some (one_side k)

key_at-injected : (k : RKey) → Option.map key_at (injected k) ≡ told k
unfolding injected char_key key_at
key_at-injected k = ground arith

told_as : (k r : RKey) → told k ≡ some r → r ≡ one_side k
told_as k r e = ground arith

side_of : (k : RKey) (u : Key) → injected k ≡ some u → key_at u ≡ one_side k
side_of k u e = let h = key_at-injected k in told_as k (key_at u) (sym (rw e at h))

injected-one_side :
    (j k : RKey) (u : Key) → injected j ≡ some u → injected k ≡ some u → one_side j ≡ one_side k
injected-one_side j k u ej ek = cc (side_of j u ej, side_of k u ek)

injected-none :
    (k : RKey) → (injected k ≡ none) ↔ ((k ≡ RKey.insert) ⊎ ((c : ℕ) × (k ≡ RKey.unnamed c)))
injected-none k = ground (arith, key_at-injected k)

-- Two captured keys that are injected as the same key are one key, or the left and the right one of a
-- modifier; and exactly Insert and the keys that the capture backend does not name are not injected.
pub injected-tells :
    (j k : RKey) (u : Key)
    → (injected j ≡ some u → injected k ≡ some u → one_side j ≡ one_side k)
      × ((injected k ≡ none) ↔ ((k ≡ RKey.insert) ⊎ ((c : ℕ) × (k ≡ RKey.unnamed c))))
injected-tells j k u = (injected-one_side j k u, injected-none k)
