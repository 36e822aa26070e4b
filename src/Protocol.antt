-- ===== src/Protocol.antt =====
-- The crate recisdb-protocol: message types, their wire format, frames.
pub mod MessageType
pub mod Messages
pub mod Utf8
pub mod Error
pub mod Buf
pub mod Plain
pub mod Reader
pub mod Encode
pub mod Decode
pub mod Cut
pub mod Frame
pub mod TypeCodes
pub mod Safe
pub mod PanicFree
pub mod Codes
mod Tests
pub mod InRange
pub mod Roundtrip
