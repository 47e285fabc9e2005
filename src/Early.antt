-- ===== src/Early.antt =====
-- The earlier frameworks of the repository: nf/, cppnf/ and zxbnf/. Their sources do not compile as
-- they stand; where an expression names nothing, it is read by the declaration that it means.
pub mod Blocks
pub mod Send
pub mod Receive
