-- ===== src/Client.antt =====
-- The crate bondriver-proxy-client.
pub mod RingBuffer
pub mod Receive
pub mod Delivery
pub mod Connection
mod Tests
