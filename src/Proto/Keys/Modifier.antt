-- ===== src/Proto/Keys/Modifier.antt =====
-- The modifier bits of crates/kvm-proto/src/keys.rs.
use self_kvm.Common.{ℕ}

abbrev pub shift : ℕ
shift = 0x0001

abbrev pub control : ℕ
control = 0x0002

abbrev pub alt : ℕ
alt = 0x0004

abbrev pub meta : ℕ
meta = 0x0008

abbrev pub super : ℕ
super = 0x0010

abbrev pub alt_gr : ℕ
alt_gr = 0x0020

abbrev pub level5lock : ℕ
level5lock = 0x0040

abbrev pub caps_lock : ℕ
caps_lock = 0x1000

abbrev pub num_lock : ℕ
num_lock = 0x2000

abbrev pub scroll_lock : ℕ
scroll_lock = 0x4000
