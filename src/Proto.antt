-- ===== src/Proto.antt =====
-- The wire protocol: crates/kvm-proto.
pub mod Error
pub mod Utf8
pub mod Bytes
pub mod Reader
pub mod Writer
pub mod Code
pub mod Keys
pub mod Message
pub mod Encode
pub mod Decode
pub mod RoundTrip
pub mod Sound
pub mod Tests
