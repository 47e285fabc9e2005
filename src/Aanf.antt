-- ===== src/Aanf.antt =====
-- aanf/asio-based2/include: the framework AANF, whose handlers run on one strand.
pub mod Udp
pub mod Tables
pub mod Sync
pub mod Read
pub mod Http
pub mod Requests
pub mod Accept
pub mod System
pub mod Client
pub mod Front
