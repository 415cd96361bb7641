-- ===== src/Desk.antt =====
-- The desktop application: src-tauri.
pub mod Grid
pub mod Shell
pub mod Files
pub mod Statuses
pub mod Tests
