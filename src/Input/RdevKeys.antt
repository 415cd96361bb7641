-- ===== src/Input/RdevKeys.antt =====
-- crates/kvm-input/src/rdev_backend.rs: what the capture backend makes of the events of the system.
use self_kvm.Common.{ℕ, Option, none, some}
use self_kvm.Proto.Keys.{KeyId}
use self_kvm.Proto.Keys.Key

-- The physical keys that the source names; `unnamed` stands for every other one.
pub data RKey : Type 0 where
  key_a key_b key_c key_d key_e key_f key_g key_h key_i key_j key_k key_l key_m key_n key_o : RKey
  key_p key_q key_r key_s key_t key_u key_v key_w key_x key_y key_z num0 num1 num2 num3 num4 : RKey
  num5 num6 num7 num8 num9 space return tab backspace escape delete insert home end page_up : RKey
  page_down up_arrow down_arrow left_arrow right_arrow shift_left shift_right control_left : RKey
  control_right alt alt_gr meta_left meta_right caps_lock f1 f2 f3 f4 f5 f6 f7 f8 f9 f10 f11 f12 :
      RKey
  minus equal left_bracket right_bracket semi_colon quote back_slash comma dot slash back_quote :
      RKey
  unnamed : (code : ℕ) → RKey

unfoldable pub map_key : RKey → Option KeyId
unfolding Key.f
map_key key_a = some 0x61
map_key key_b = some 0x62
map_key key_c = some 0x63
map_key key_d = some 0x64
map_key key_e = some 0x65
map_key key_f = some 0x66
map_key key_g = some 0x67
map_key key_h = some 0x68
map_key key_i = some 0x69
map_key key_j = some 0x6a
map_key key_k = some 0x6b
map_key key_l = some 0x6c
map_key key_m = some 0x6d
map_key key_n = some 0x6e
map_key key_o = some 0x6f
map_key key_p = some 0x70
map_key key_q = some 0x71
map_key key_r = some 0x72
map_key key_s = some 0x73
map_key key_t = some 0x74
map_key key_u = some 0x75
map_key key_v = some 0x76
map_key key_w = some 0x77
map_key key_x = some 0x78
map_key key_y = some 0x79
map_key key_z = some 0x7a
map_key num0 = some 0x30
map_key num1 = some 0x31
map_key num2 = some 0x32
map_key num3 = some 0x33
map_key num4 = some 0x34
map_key num5 = some 0x35
map_key num6 = some 0x36
map_key num7 = some 0x37
map_key num8 = some 0x38
map_key num9 = some 0x39
map_key space = some 0x20
map_key return = some Key.return_key
map_key tab = some Key.tab
map_key backspace = some Key.backspace
map_key escape = some Key.escape
map_key delete = some Key.delete
map_key insert = some Key.insert
map_key home = some Key.home
map_key end = some Key.end
map_key page_up = some Key.page_up
map_key page_down = some Key.page_down
map_key up_arrow = some Key.up
map_key down_arrow = some Key.down
map_key left_arrow = some Key.left
map_key right_arrow = some Key.right
map_key shift_left = some Key.shift_l
map_key shift_right = some Key.shift_r
map_key control_left = some Key.control_l
map_key control_right = some Key.control_r
map_key alt = some Key.alt_l
map_key alt_gr = some Key.alt_r
map_key meta_left = some Key.super_l
map_key meta_right = some Key.super_r
map_key caps_lock = some Key.caps_lock
map_key f1 = some (Key.f 1)
map_key f2 = some (Key.f 2)
map_key f3 = some (Key.f 3)
map_key f4 = some (Key.f 4)
map_key f5 = some (Key.f 5)
map_key f6 = some (Key.f 6)
map_key f7 = some (Key.f 7)
map_key f8 = some (Key.f 8)
map_key f9 = some (Key.f 9)
map_key f10 = some (Key.f 10)
map_key f11 = some (Key.f 11)
map_key f12 = some (Key.f 12)
map_key minus = some 0x2d
map_key equal = some 0x3d
map_key left_bracket = some 0x5b
map_key right_bracket = some 0x5d
map_key semi_colon = some 0x3b
map_key quote = some 0x27
map_key back_slash = some 0x5c
map_key comma = some 0x2c
map_key dot = some 0x2e
map_key slash = some 0x2f
map_key back_quote = some 0x60
map_key (unnamed code) = none
