-- ===== src/Proto/Encode.antt =====
-- `Message::encode` of crates/kvm-proto/src/message.rs.
use self_kvm.Common.{ℕ, List, if◌then◌else◌}
use self_kvm.Common.Int.{ℤ}
use self_kvm.Proto.Keys.{KeyId, KeyButton, KeyModifierMask}
use self_kvm.Proto.Code
use self_kvm.Proto.Message.{
  Message, hello, hello_back, query_info, device_info, info_ack, reset_options, set_options,
  keep_alive, no_op, close, screen_saver, enter, leave, key_down, key_up, key_repeat, mouse_down,
  mouse_up, mouse_move, mouse_rel_move, mouse_wheel, clipboard_grab, clipboard_data, file_offer,
  file_chunk, file_end, file_accept, err_incompatible, err_busy, err_unknown, err_bad,
}
use self_kvm.Proto.Writer.{new, raw, with_code, u8, i8, u16, i16, u32, u64, bytes, string, i32_vec}

unfoldable pub key_msg : List ℕ → KeyId → KeyModifierMask → KeyButton → List ℕ
unfolding with_code u16
key_msg code id mask button = u16 (u16 (u16 (with_code code) id) mask) button

unfoldable pub xy_msg : List ℕ → ℤ → ℤ → List ℕ
unfolding with_code i16
xy_msg code x y = i16 (i16 (with_code code) x) y

unfoldable pub encode : Message → List ℕ
unfolding key_msg xy_msg new raw with_code u8 i8 u16 i16 u32 u64 bytes string i32_vec
encode (hello major minor) = i16 (i16 (raw new Code.hello_magic) major) minor
encode (hello_back major minor name) =
    string (i16 (i16 (raw new Code.hello_magic) major) minor) name
encode query_info = with_code Code.query_info
encode (device_info x y w h warp mx my) =
    i16 (i16 (i16 (i16 (i16 (i16 (i16 (with_code Code.device_info) x) y) w) h) warp) mx) my
encode info_ack = with_code Code.info_ack
encode reset_options = with_code Code.reset_options
encode (set_options opts) = i32_vec (with_code Code.set_options) opts
encode keep_alive = with_code Code.keep_alive
encode no_op = with_code Code.no_op
encode close = with_code Code.close
encode (screen_saver on) = u8 (with_code Code.screen_saver) (if on then 1 else 0)
encode (enter x y seq modifiers) = u16 (u32 (i16 (i16 (with_code Code.enter) x) y) seq) modifiers
encode leave = with_code Code.leave
encode (key_down id mask button) = key_msg Code.key_down id mask button
encode (key_up id mask button) = key_msg Code.key_up id mask button
encode (key_repeat id mask count button) =
    u16 (u16 (u16 (u16 (with_code Code.key_repeat) id) mask) count) button
encode (mouse_down button) = i8 (with_code Code.mouse_down) button
encode (mouse_up button) = i8 (with_code Code.mouse_up) button
encode (mouse_move x y) = xy_msg Code.mouse_move x y
encode (mouse_rel_move dx dy) = xy_msg Code.mouse_rel_move dx dy
encode (mouse_wheel x y) = xy_msg Code.mouse_wheel x y
encode (clipboard_grab id seq) = u32 (i8 (with_code Code.clipboard_grab) id) seq
encode (clipboard_data id seq mark b) =
    bytes (i8 (u32 (i8 (with_code Code.clipboard_data) id) seq) mark) b
encode (file_offer id name size) = u64 (string (u32 (with_code Code.file_offer) id) name) size
encode (file_chunk id seq b) = bytes (u32 (u32 (with_code Code.file_chunk) id) seq) b
encode (file_end id count) = u32 (u32 (with_code Code.file_end) id) count
encode (file_accept id accept) = u8 (u32 (with_code Code.file_accept) id) (if accept then 1 else 0)
encode (err_incompatible major minor) = i16 (i16 (with_code Code.err_incompatible) major) minor
encode err_busy = with_code Code.err_busy
encode err_unknown = with_code Code.err_unknown
encode err_bad = with_code Code.err_bad
