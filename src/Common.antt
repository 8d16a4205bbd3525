-- ===== src/Common.antt =====
-- pinenut/src/common.rs: what the components share.
pub mod BytesBuf
pub mod Memory
pub mod LittleEndian
pub mod Ends
pub mod LazyFile
