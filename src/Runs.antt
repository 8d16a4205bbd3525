-- ===== src/Runs.antt =====
-- The theorems at concrete inputs: a clock, records and buffers to run the model on.
pub mod Clock
pub mod Codec
pub mod Parse
pub mod Chunk
pub mod Buffer
pub mod Encrypt
pub mod Compress
pub mod Chunks
pub mod Extract
pub mod Logger
pub mod Io
pub mod Logfile
pub mod Mmap
pub mod Batch
pub mod LazyFile
