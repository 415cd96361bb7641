-- ===== src/Daemon.antt =====
-- The runtime around the machines: crates/kvm-daemon.
pub mod Receive
pub mod Server
pub mod Client
pub mod Send
pub mod Fill
pub mod SendFile
pub mod Permits
pub mod Main
pub mod Hooks
pub mod Clipboard
pub mod Publish
pub mod Download
pub mod Tests
