-- ===== src/Proto/Code.antt =====
-- The opcodes and the greeting magic of crates/kvm-proto/src/message.rs.
use self_kvm.Common.{ℕ, List, [], ◌∷◌}

abbrev pub query_info : List ℕ
query_info = b'Q' ∷ b'I' ∷ b'N' ∷ b'F' ∷ []

abbrev pub device_info : List ℕ
device_info = b'D' ∷ b'I' ∷ b'N' ∷ b'F' ∷ []

abbrev pub info_ack : List ℕ
info_ack = b'C' ∷ b'I' ∷ b'A' ∷ b'K' ∷ []

abbrev pub reset_options : List ℕ
reset_options = b'C' ∷ b'R' ∷ b'O' ∷ b'P' ∷ []

abbrev pub set_options : List ℕ
set_options = b'D' ∷ b'S' ∷ b'O' ∷ b'P' ∷ []

abbrev pub keep_alive : List ℕ
keep_alive = b'C' ∷ b'A' ∷ b'L' ∷ b'V' ∷ []

abbrev pub no_op : List ℕ
no_op = b'C' ∷ b'N' ∷ b'O' ∷ b'P' ∷ []

abbrev pub close : List ℕ
close = b'C' ∷ b'B' ∷ b'Y' ∷ b'E' ∷ []

abbrev pub screen_saver : List ℕ
screen_saver = b'C' ∷ b'S' ∷ b'E' ∷ b'C' ∷ []

abbrev pub enter : List ℕ
enter = b'C' ∷ b'I' ∷ b'N' ∷ b'N' ∷ []

abbrev pub leave : List ℕ
leave = b'C' ∷ b'O' ∷ b'U' ∷ b'T' ∷ []

abbrev pub key_down : List ℕ
key_down = b'D' ∷ b'K' ∷ b'D' ∷ b'N' ∷ []

abbrev pub key_up : List ℕ
key_up = b'D' ∷ b'K' ∷ b'U' ∷ b'P' ∷ []

abbrev pub key_repeat : List ℕ
key_repeat = b'D' ∷ b'K' ∷ b'R' ∷ b'P' ∷ []

abbrev pub mouse_down : List ℕ
mouse_down = b'D' ∷ b'M' ∷ b'D' ∷ b'N' ∷ []

abbrev pub mouse_up : List ℕ
mouse_up = b'D' ∷ b'M' ∷ b'U' ∷ b'P' ∷ []

abbrev pub mouse_move : List ℕ
mouse_move = b'D' ∷ b'M' ∷ b'M' ∷ b'V' ∷ []

abbrev pub mouse_rel_move : List ℕ
mouse_rel_move = b'D' ∷ b'M' ∷ b'R' ∷ b'M' ∷ []

abbrev pub mouse_wheel : List ℕ
mouse_wheel = b'D' ∷ b'M' ∷ b'W' ∷ b'M' ∷ []

abbrev pub clipboard_grab : List ℕ
clipboard_grab = b'C' ∷ b'C' ∷ b'L' ∷ b'P' ∷ []

abbrev pub clipboard_data : List ℕ
clipboard_data = b'D' ∷ b'C' ∷ b'L' ∷ b'P' ∷ []

abbrev pub file_offer : List ℕ
file_offer = b'F' ∷ b'O' ∷ b'F' ∷ b'R' ∷ []

abbrev pub file_chunk : List ℕ
file_chunk = b'F' ∷ b'D' ∷ b'A' ∷ b'T' ∷ []

abbrev pub file_end : List ℕ
file_end = b'F' ∷ b'E' ∷ b'N' ∷ b'D' ∷ []

abbrev pub file_accept : List ℕ
file_accept = b'F' ∷ b'A' ∷ b'C' ∷ b'K' ∷ []

abbrev pub err_incompatible : List ℕ
err_incompatible = b'E' ∷ b'I' ∷ b'C' ∷ b'V' ∷ []

abbrev pub err_busy : List ℕ
err_busy = b'E' ∷ b'B' ∷ b'S' ∷ b'Y' ∷ []

abbrev pub err_unknown : List ℕ
err_unknown = b'E' ∷ b'U' ∷ b'N' ∷ b'K' ∷ []

abbrev pub err_bad : List ℕ
err_bad = b'E' ∷ b'B' ∷ b'A' ∷ b'D' ∷ []

-- `HELLO_MAGIC`, seven bytes.
abbrev pub hello_magic : List ℕ
hello_magic = b'S' ∷ b'e' ∷ b'l' ∷ b'f' ∷ b'K' ∷ b'V' ∷ b'M' ∷ []
