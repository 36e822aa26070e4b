-- ===== src/Tuner.antt =====
-- recisdb-proxy/src/tuner: keys of tuned channels and the lock that shares a tuner.
pub mod ChannelKey
pub mod Semaphore
pub mod KeyMap
pub mod Lock
pub mod Pool
