-- ===== src/Libevent.antt =====
-- aanf/libevent-based/src: the version of AANF over libevent. Its sources do not compile as they
-- stand; where an expression names nothing, it is read by the declaration that it means.
pub mod Memory
pub mod Bin
pub mod Line
pub mod Write
pub mod Queues
pub mod Callback
pub mod Sync
pub mod Timer
pub mod Sockets
