-- ===== src/Proto/RoundTrip.antt =====
-- What `encode` writes, `decode` reads back.
mod Fields
mod Messages
pub use Fields.{u32-be_bytes, bytes-append, string-append}
pub use Messages.{decode-encode}
