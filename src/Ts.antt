-- ===== src/Ts.antt =====
-- recisdb-proxy/src/ts_analyzer: transport stream packets, sections, tables and the service filter.
pub mod Access
pub mod Packet
pub mod Psi
pub mod Fields
pub mod Collector
pub mod Tables
pub mod Filter
pub mod Minimal
pub mod PanicFree
mod Tests
