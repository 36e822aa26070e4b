-- ===== src/Session.antt =====
-- recisdb-proxy/src/server/session.rs: a client's session in the server.
pub mod Receive
pub mod Handlers
pub mod Delivery
pub mod Progress
mod Tests
