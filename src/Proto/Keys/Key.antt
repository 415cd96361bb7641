-- ===== src/Proto/Keys/Key.antt =====
-- The special keys of crates/kvm-proto/src/keys.rs.
use self_kvm.Common.{ℕ, ◌+◌, ◌%◌}

abbrev pub backspace : ℕ
backspace = 0xEF08

abbrev pub tab : ℕ
tab = 0xEF09

abbrev pub return_key : ℕ
return_key = 0xEF0D

abbrev pub escape : ℕ
escape = 0xEF1B

abbrev pub delete : ℕ
delete = 0xEFFF

abbrev pub space : ℕ
space = 0x0020

abbrev pub home : ℕ
home = 0xEF50

abbrev pub left : ℕ
left = 0xEF51

abbrev pub up : ℕ
up = 0xEF52

abbrev pub right : ℕ
right = 0xEF53

abbrev pub down : ℕ
down = 0xEF54

abbrev pub page_up : ℕ
page_up = 0xEF55

abbrev pub page_down : ℕ
page_down = 0xEF56

abbrev pub end : ℕ
end = 0xEF57

abbrev pub insert : ℕ
insert = 0xEF63

abbrev pub f1 : ℕ
f1 = 0xEFBE

abbrev pub shift_l : ℕ
shift_l = 0xEFE1

abbrev pub shift_r : ℕ
shift_r = 0xEFE2

abbrev pub control_l : ℕ
control_l = 0xEFE3

abbrev pub control_r : ℕ
control_r = 0xEFE4

abbrev pub caps_lock : ℕ
caps_lock = 0xEFE5

abbrev pub alt_l : ℕ
alt_l = 0xEFE9

abbrev pub alt_r : ℕ
alt_r = 0xEFEA

abbrev pub super_l : ℕ
super_l = 0xEFEB

abbrev pub super_r : ℕ
super_r = 0xEFEC

abbrev pub meta_l : ℕ
meta_l = 0xEFE7

abbrev pub meta_r : ℕ
meta_r = 0xEFE8

-- `F1 + (n as KeyId) - 1` in u16 arithmetic, evaluated from the left.
unfoldable pub f : ℕ → ℕ
f n = ((f1 + n) % 65536 + 65535) % 65536
