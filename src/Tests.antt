-- ===== src/Tests.antt =====
-- Runs of the code on small inputs: an instance of each theorem.
pub mod Client
pub mod Front
pub mod Stream
pub mod Server
pub mod Aanf
pub mod Read
mod Http
mod System
mod Programs
mod Callers
mod Workers
mod Libevent
mod Early
