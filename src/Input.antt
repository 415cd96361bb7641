-- ===== src/Input.antt =====
-- crates/kvm-input: capture and injection of input.
pub mod RdevKeys
pub mod Enigo
pub mod KeyPath
pub mod Rdev
pub mod Swallowed
pub mod Pressed
pub mod Display
pub mod Tests
