-- ===== src/Proto/Keys.antt =====
-- crates/kvm-proto/src/keys.rs: key ids, physical keys and modifier masks, all u16.
pub mod Modifier
pub mod Key
use self_kvm.Common.{
  ℕ, ◌≡◌, ◌<◌, Option, none, some, Bool, true, false, ◌&&◌, not, ltb, leb, ◌==◌, if◌then◌else◌,
}

abbrev pub KeyId : Type 0
KeyId = ℕ

abbrev pub KeyButton : Type 0
KeyButton = ℕ

abbrev pub KeyModifierMask : Type 0
KeyModifierMask = ℕ

abbrev pub key_none : KeyId
key_none = 0x0000

unfoldable pub key_id_from_char : ℕ → Option KeyId
key_id_from_char c = if leb c 0xFFFF then some c else none

unfoldable pub is_printable : KeyId → Bool
is_printable id = not (leb 0xE000 id && leb id 0xEFFF) && not (id == key_none)
