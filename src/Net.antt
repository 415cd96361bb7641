-- ===== src/Net.antt =====
-- The framed transport: crates/kvm-net.
pub mod Transport
pub mod Trust
pub mod TrustFile
pub mod Wire
pub mod Tests
