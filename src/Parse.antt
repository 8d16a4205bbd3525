-- ===== src/Parse.antt =====
-- pinenut/src/parse.rs: from a log file back to its records.
pub mod Keys
pub mod Errors
pub mod Processor
pub mod Pipeline
pub mod Chunks
pub mod RecordParser
pub mod Split
pub mod Streaming
pub mod Damage
