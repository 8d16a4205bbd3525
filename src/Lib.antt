-- ===== src/Lib.antt =====
-- A model of Pinenut, a logging library that compresses and encrypts records into a
-- memory-mapped double buffer and from there into files of chunks, and the theorems that make
-- the model correct. The paths below are those of the repository.
--
-- - Prelude: shared names, Boolean tests, lists, integers, and fallible code over a mutable
--   state (Effects).
-- - Chrono: the crate chrono, a parameter: its dates, and what it documents of their seconds
--   and nanoseconds (IsChrono).
-- - Utf8: str::from_utf8 of the standard library.
-- - Common: BytesBuf of pinenut/src/common.rs; its Sink is a function that passes a state on.
--   Common/LazyFile is LazyFileWriter, over the parameter DestSystem of the file system's
--   calls, with a proof in Common/LazyFile/Created.
-- - Record: the data of pinenut/src/record.rs, texts as the lists of their UTF-8 bytes.
-- - Codec: the traits Encode and Decode of pinenut/src/codec.rs, with the derived
--   implementations of pinenut/derive/src/codec.rs expanded for Location, Meta and Record.
--   Codec/Values says which values the types hold and in what pieces they are written;
--   Codec/Varint, Codec/Writes, Codec/RoundTrip, Codec/Stable and Codec/Truncated are proofs
--   on it. Codec/Accumulate is AccumulationEncoder.
-- - Common/Memory, Common/LittleEndian: memory as the list of its bytes, with slices of it
--   and bytes put into it, and integers as bytes, for Magic and the headers.
-- - Chunk: pinenut/src/chunk.rs. A chunk is its header, a record of byte arrays, and the
--   memory behind it; bind and chunk_bytes are the overlay of the 60 bytes. The panic of
--   set_payload_len is none. Chunk/Layout and Chunk/Write are proofs. Chunk/Reader is the
--   module reader, with proofs in Chunk/Reader/Headers, Chunk/Reader/Payload and
--   Chunk/Reader/Skips; how many bytes a call of read gives, whether it is interrupted or
--   fails, and whether a seek fails, are schedules in the model's file.
-- - Buffer: pinenut/src/buffer.rs, BufferInner and the handles of the two sides, over one
--   memory; proofs in Buffer/Sides and Buffer/Writes.
-- - Encrypt: the block encryptor and decryptor of pinenut/src/encrypt.rs with the optional
--   forms; the crates' AES and PKCS#7 padding are the parameter Aes, and IsAes is what they
--   document. Encrypt/Sinks is one call of the buffer's sink, Encrypt/Stream and
--   Encrypt/Decrypt are the proofs.
-- - TimeDimension: TimeDimension of pinenut/src/lib.rs and Context::file_dimension of
--   pinenut/src/logger.rs.
-- - Logger: Processor and Core::on of pinenut/src/logger.rs; the compressor is a parameter,
--   of which zstd_compressor is that of LoggerInner, the current time is an argument, and the
--   events for the other thread are a list. Logger/Io is Io, the handler of the other thread;
--   the file system is a parameter. Logger/Session is the proof for the processor on one
--   chunk, with a child for each stage, and Logger/Batch for the core logger: records, a
--   flush and the event through both threads (Logger/Batch/Arrives), the parsing of the log
--   file after that (Logger/Batch/RoundTrip), the loss of a batch (Logger/Batch/Lost), and
--   any number of batches (Logger/Batch/Series, with what the log files then hold in
--   Logger/Batch/Series/Kept and what is parsed from them in Logger/Batch/Series/Read).
--   Logger/Start is Core::new: Logger/Start/Recovered, Logger/Start/StaleKey and
--   Logger/Start/Reset are the proofs for the chunks that it may find, Logger/Start/Opening,
--   Logger/Start/Restart and Logger/Start/BothSides their steps, Logger/Handover is the
--   switch, and Logger/FirstRun puts the start, batches and the parser together.
--   Logger/Rotation, Logger/Io/Written, Logger/Io/Delivered and Logger/Io/Shutdown are
--   proofs.
-- - Logfile: pinenut/src/logfile.rs, the names of log files, and in Logfile/Files the files,
--   over the parameter FileSystem; Logfile/Names and, for a disk that does not fail (IsDisk),
--   Logfile/Files/Disk are proofs.
-- - Mmap: pinenut/src/mmap.rs and Core::initialize_memory of pinenut/src/logger.rs, over the
--   parameter System of the operating system's calls; Mmap/Pages is the proof.
-- - Runloop: pinenut/src/runloop.rs, the queue of events and the thread as steps;
--   Runloop/Fifo has the relation of what can have happened, and the proofs.
-- - Common/Ends: how a step in front of a sink ends, by how the sink's calls end; what the
--   encoder, the encryptor and the compressor have in common.
-- - Compress: the loops of pinenut/src/compress.rs around the streaming calls of zstd, which
--   are the parameter Zstd; IsEncoder and IsDecoder are what the library documents of them.
--   Compress/Frame, Compress/Stream and Compress/RoundTrip are proofs.
-- - Errors: the errors of pinenut/src/parse.rs, encrypt.rs and compress.rs.
-- - Parse: RecordParser of pinenut/src/parse.rs and, in Parse/Streaming and Parse/Damage,
--   what it makes of a stream of records and of damaged bytes; Parse/Keys is
--   Processor::obtain_decryptor, with the key exchange as a parameter. Parse/Errors has the
--   errors of parse, Parse/Processor is Processor::chunk_sink and parse of an opened file,
--   with proofs in Parse/Pipeline and Parse/Chunks.
-- - Extract: extract_chunks, the selection of files and extract of pinenut/src/extract.rs,
--   with proofs in Extract/Chunks (with its steps in Extract/Chunks/Layout and
--   Extract/Chunks/Calls), Extract/Files, Extract/Listing (which has the listing of the
--   directory too, with its steps in Extract/Listing/Sorting and Extract/Listing/Entries),
--   Extract/Found and, together with parsing, Extract/Parsed.
-- - Runs: the theorems at concrete inputs.
--
-- A record is encoded into a sink, which for the logger is the compressor, the encryptor and the
-- chunk one after the other; a file's chunks are read, decrypted and decompressed, and the bytes
-- are handed to the record parser in pieces whose sizes depend on the compressor.
--
-- Loops run on fuel where they do not follow the structure of their input: the encoder's loop
-- gets one round for each byte and one more, the parser's loop as many rounds as there are bytes
-- held, parse_all as many as there are bytes given. Each round of these loops takes at least a
-- byte, except where the parser's buffer is full of one incomplete record. The encryptor's and
-- the decryptor's loops get one for each byte of input. The loops of the chunk reader get a
-- round for each byte and each event of the schedule. The loops of parse and of extract_chunks
-- get a round for each byte of the file, and every round reads a header. The loops around zstd
-- get a number of rounds that the theorems bound by what the library still has to take and to
-- put out. A varint is encoded by recursion on Acc.
--
-- Not modelled: LoggerInner::new_inner of pinenut/src/logger.rs, which calls the libraries to
-- make the keys, the encryptor and the compressor, decode_hex of pinenut/src/common.rs, the
-- builders of records, the formatting of records, the C interface and the command line. The
-- libraries zstd, aes and p256 are parameters or are not called.
pub mod Prelude
pub mod Chrono
pub mod Utf8
pub mod Common
pub mod Record
pub mod Codec
pub mod Errors
pub mod Parse
pub mod Chunk
pub mod Buffer
pub mod Encrypt
pub mod Extract
pub mod Compress
pub mod Runloop
pub mod Logfile
pub mod Mmap
pub mod TimeDimension
pub mod Logger
pub mod Runs
