-- ===== src/Core.antt =====
-- The pure logic: crates/kvm-core.
pub mod Events
pub mod Layout
pub mod Config
pub mod Client
pub mod Server
pub mod Session
pub mod FileName
pub mod FileTransfer
pub mod Tests
