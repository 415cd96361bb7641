-- ===== src/Proto/Message.antt =====
-- The messages of crates/kvm-proto/src/message.rs, and which of them fit their wire fields.
use self_kvm.Common.{ℕ, ◌/◌, ◌≤◌, List, Bool, true, false, length, All}
use self_kvm.Common.Int.{ℤ, IsByte, IsU16, IsU32, IsU64, IsI8, IsI16, IsI32}
use self_kvm.Proto.Keys.{KeyId, KeyButton, KeyModifierMask}
use self_kvm.Proto.Utf8.{Text, IsText, as_bytes}
use self_kvm.Proto.Reader.{max_field_len}

abbrev pub default_port : ℕ
default_port = 24800

abbrev pub protocol_major : ℤ
protocol_major = ℤ.pos 1

abbrev pub protocol_minor : ℤ
protocol_minor = ℤ.pos 9

pub data Message : Type 0 where
  hello : (major minor : ℤ) → Message
  hello_back : (major minor : ℤ) (name : Text) → Message
  query_info : Message
  device_info : (x y w h warp mx my : ℤ) → Message
  info_ack : Message
  reset_options : Message
  set_options : (opts : List ℤ) → Message
  keep_alive : Message
  no_op : Message
  close : Message
  screen_saver : (on : Bool) → Message
  enter : (x y : ℤ) (seq : ℕ) (modifiers : KeyModifierMask) → Message
  leave : Message
  key_down : (id : KeyId) (mask : KeyModifierMask) (button : KeyButton) → Message
  key_up : (id : KeyId) (mask : KeyModifierMask) (button : KeyButton) → Message
  key_repeat : (id : KeyId) (mask : KeyModifierMask) (count : ℕ) (button : KeyButton) → Message
  mouse_down : (button : ℤ) → Message
  mouse_up : (button : ℤ) → Message
  mouse_move : (x y : ℤ) → Message
  mouse_rel_move : (dx dy : ℤ) → Message
  mouse_wheel : (x y : ℤ) → Message
  clipboard_grab : (id : ℤ) (seq : ℕ) → Message
  clipboard_data : (id : ℤ) (seq : ℕ) (mark : ℤ) (bytes : List ℕ) → Message
  file_offer : (id : ℕ) (name : Text) (size : ℕ) → Message
  file_chunk : (id seq : ℕ) (bytes : List ℕ) → Message
  file_end : (id count : ℕ) → Message
  file_accept : (id : ℕ) (accept : Bool) → Message
  err_incompatible : (major minor : ℤ) → Message
  err_busy : Message
  err_unknown : Message
  err_bad : Message

-- A Rust `String` and a `Vec<u8>` that a length-prefixed field can carry.
abbrev pub FitsText : Text → Type 0
FitsText s = IsText s × (length (as_bytes s) ≤ max_field_len)

abbrev pub FitsBytes : List ℕ → Type 0
FitsBytes b = All IsByte b × (length b ≤ max_field_len)

abbrev pub FitsKey : ℕ → ℕ → ℕ → Type 0
FitsKey id mask button = IsU16 id × IsU16 mask × IsU16 button

-- Each field is a value of its Rust type, and no length-prefixed field is over the ceiling.
abbrev pub Fits : Message → Type 0
Fits (hello major minor) = IsI16 major × IsI16 minor
Fits (hello_back major minor name) = IsI16 major × IsI16 minor × FitsText name
Fits (device_info x y w h warp mx my) =
    IsI16 x × IsI16 y × IsI16 w × IsI16 h × IsI16 warp × IsI16 mx × IsI16 my
Fits (set_options opts) = All IsI32 opts × (length opts ≤ max_field_len / 4)
Fits (enter x y seq modifiers) = IsI16 x × IsI16 y × IsU32 seq × IsU16 modifiers
Fits (key_down id mask button) = FitsKey id mask button
Fits (key_up id mask button) = FitsKey id mask button
Fits (key_repeat id mask count button) = IsU16 id × IsU16 mask × IsU16 count × IsU16 button
Fits (mouse_down button) = IsI8 button
Fits (mouse_up button) = IsI8 button
Fits (mouse_move x y) = IsI16 x × IsI16 y
Fits (mouse_rel_move dx dy) = IsI16 dx × IsI16 dy
Fits (mouse_wheel x y) = IsI16 x × IsI16 y
Fits (clipboard_grab id seq) = IsI8 id × IsU32 seq
Fits (clipboard_data id seq mark bytes) = IsI8 id × IsU32 seq × IsI8 mark × FitsBytes bytes
Fits (file_offer id name size) = IsU32 id × FitsText name × IsU64 size
Fits (file_chunk id seq bytes) = IsU32 id × IsU32 seq × FitsBytes bytes
Fits (file_end id count) = IsU32 id × IsU32 count
Fits (file_accept id accept) = IsU32 id
Fits (err_incompatible major minor) = IsI16 major × IsI16 minor
Fits _ = Unit {0}

unfoldable pub is_input : Message → Bool
is_input (key_down _ _ _) = true
is_input (key_up _ _ _) = true
is_input (key_repeat _ _ _ _) = true
is_input (mouse_down _) = true
is_input (mouse_up _) = true
is_input (mouse_move _ _) = true
is_input (mouse_rel_move _ _) = true
is_input (mouse_wheel _ _) = true
is_input _ = false
