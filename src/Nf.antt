-- ===== src/Nf.antt =====
-- The synchronous framework NF of all-sync/: one thread that polls, and workers that read, process
-- and write over blocking sockets.
pub mod Addr
pub mod Socket
pub mod Connect
pub mod Pool
pub mod Stream
pub mod Wait
pub mod Server
pub mod Worker
pub mod Front
pub mod Backend
pub mod Pools
pub mod Main
pub mod Callers
