-- ===== src/Parse/Processor.antt =====
-- `Processor` and `parse` of pinenut/src/parse.rs: the chunks of a file are decrypted, decompressed and
-- handed to the record parser.
use pinenut.Prelude.{
  ℕ, zero, suc, ◌+◌, List, [], length, Bool, true, false, ◌&&◌, not, ◌==◌, if◌then◌else◌, Option,
  none, some, Result, ok, err, map_err, Exec, Sink, Fault, stuck, raised,
}
use pinenut.Errors.{
  IoError, CipherError, CompressionError, ChunkError, decrypt as chunk_decrypt,
  decompress as chunk_decompress,
}
use pinenut.Chrono.{Chrono}
use pinenut.Record.{Record}
use pinenut.Common.BytesBuf.{BytesBuf}
use pinenut.Chunk.{
  Header, header_version, header_payload_len, format_version, start_datetime, end_datetime,
}
use pinenut.Chunk.Reader.{ReadError, File, read_header_or_reach_to_end, read_payload}
use pinenut.Compress.{Zstd, decompress}
use pinenut.Encrypt.{Aes, decrypt_optional, decrypt_buffer_len}
use pinenut.Parse.RecordParser.{RecordParser, new, clear_buffer, parse_all, buffer_len}
use pinenut.Parse.Keys.{Keys, obtain_decryptor}
use pinenut.Parse.Errors.{
  ParseError, ParseErrors, TimeRange, decrypt, chunks, no_errors, push, can_continue_to_read_chunk,
  from_chunk_error, from_read_error, join_fault, map_fault,
}

-- `AesDecryptor::new(key)` starts with an empty buffer; `aes` is the cipher for a key.
abbrev pub new_decryptor : BytesBuf
new_decryptor = record { capacity = decrypt_buffer_len; bytes = [] }

abbrev pub decompression : CompressionError → Fault ChunkError
decompression e = raised (chunk_decompress e)

abbrev pub decryption : CipherError → Fault ChunkError
decryption e = raised (chunk_decrypt e)

module _ (c : Chrono) {C : Type 0} (callback : Record c → Exec C IoError (Unit {0})) (zstd : Zstd)
    (aes : List ℕ → Aes) (rounds : ℕ) where
  open c use {DateTime}
  open zstd use {DCtx}

  abbrev pub parsed :
      RecordParser C
      → Option (Result ChunkError (Unit {0}) × RecordParser C)
      → Result (Fault ChunkError) (Unit {0}) × RecordParser C
  parsed p none = (err stuck, p)
  parsed p (some (r, q)) = (map_err raised r, q)

  -- `FnSink::new(|bytes| self.parser.parse_all(bytes))`
  abbrev pub to_parser : Sink (RecordParser C) (Fault ChunkError)
  to_parser bytes p = parsed p (parse_all c callback (length bytes) bytes p)

  -- `to_decompressor`, with as many rounds as are given.
  unfoldable pub to_decompressor : Sink (DCtx × RecordParser C) (Fault ChunkError)
  to_decompressor bytes st =
      let (r, st') = decompress to_parser decompression zstd rounds bytes st in
      (map_err join_fault r, st')

  -- What the closure of `chunk_sink` owns, and what of the processor it borrows.
  pub record ChunkSink : Type 0 where
    pub read_len : ℕ
    pub decryptor : BytesBuf
    pub context : DCtx
    pub parser : RecordParser C

  -- The decryptor's call, without a key too.
  unfoldable pub decrypt_with :
      Option (List ℕ)
      → Bool
      → List ℕ
      → Exec (BytesBuf × (DCtx × RecordParser C)) (Fault (Fault ChunkError)) (Unit {0})
  decrypt_with (some key) reached =
      decrypt_optional (aes key) to_decompressor decryption true reached
  decrypt_with none reached = decrypt_optional (aes []) to_decompressor decryption false reached

  abbrev pub after_decrypt :
      TimeRange DateTime
      → Bool
      → ℕ
      → Result (Fault (Fault ChunkError)) (Unit {0}) × (BytesBuf × (DCtx × RecordParser C))
      → Result (Fault (ParseError DateTime)) (Unit {0}) × ChunkSink
  after_decrypt range reached_to_end read_len (ok _, (b, (d, p))) = (
    ok tt,
    record {
      read_len = read_len;
      decryptor = b;
      context = d;
      parser = if reached_to_end then clear_buffer p else p;
    },
  )
  after_decrypt range reached_to_end read_len (err e, (b, (d, p))) = (
    err (map_fault (from_chunk_error range) (join_fault e)),
    record { read_len = read_len; decryptor = b; context = d; parser = p },
  )

  -- `chunk_sink`, with what `obtain_decryptor` returned.
  unfoldable pub chunk_sink :
      ℕ
      → Result CipherError (Option (List ℕ))
      → TimeRange DateTime
      → Bool
      → Sink ChunkSink (Fault (ParseError DateTime))
  chunk_sink payload_len (err e) range writeback bytes s =
      (err (raised (decrypt e range)), record s { read_len = s.read_len + length bytes })
  chunk_sink payload_len (ok key) range writeback bytes s =
      let read_len = s.read_len + length bytes in
      let reached_to_end = read_len == payload_len in
      after_decrypt range reached_to_end read_len (
        decrypt_with key (reached_to_end && not writeback) bytes
          (s.decryptor, (s.context, s.parser)))

  pub record Processor : Type 0 where
    pub decompressor : DCtx
    pub encryption_keys : Keys
    pub parser : RecordParser C

  module _ (ecdh_encryption_key : List ℕ → List ℕ → Result CipherError (List ℕ))
      (secret_key : Option (List ℕ)) where
    abbrev pub Parsing : Type 0
    Parsing = Result (Fault (ParseError DateTime)) (Unit {0}) × (Processor × File)

    abbrev after_payload :
        Keys
        → Result (Fault (Fault (ParseError DateTime))) (Unit {0}) × (ChunkSink × File)
        → Parsing
    after_payload keys (r, (s, file)) = (
      map_err join_fault r,
      (record { decompressor = s.context; encryption_keys = keys; parser = s.parser }, file),
    )

    abbrev pub time_range : Header → TimeRange DateTime
    time_range header = (start_datetime c header, end_datetime c header)

    -- `read_payload` into a chunk's sink, with what its header says.
    abbrev pub read_chunk :
        Keys
        → ℕ
        → Result CipherError (Option (List ℕ))
        → TimeRange DateTime
        → Bool
        → Processor × File
        → Parsing
    read_chunk keys payload_len key range writeback (p, file) = after_payload keys (
        read_payload (chunk_sink payload_len key range writeback) (λ e. raised (from_read_error e))
          buffer_len payload_len
          (
            record {
              read_len = 0;
              decryptor = new_decryptor;
              context = p.decompressor;
              parser = p.parser;
            },
            file,
          ))

    unfoldable pub parse_chunk : Header → Processor × File → Parsing
    parse_chunk header (p, file) =
        let (key, keys) =
          obtain_decryptor ecdh_encryption_key secret_key header.pub_key p.encryption_keys in
        read_chunk keys (header_payload_len header) key (time_range header) header.writeback
          (p, file)

    abbrev pub ended : ParseErrors DateTime → Result (Fault (ParseError DateTime)) (Unit {0})
    ended no_errors = ok tt
    ended (push found e) = err (raised (chunks (push found e)))

    unfoldable pub after_chunk :
        (ParseErrors DateTime → Processor × File → Parsing)
        → ParseErrors DateTime
        → Parsing
        → Parsing
    after_chunk next found (ok _, st) = next found st
    after_chunk next found (err stuck, st) = (err stuck, st)
    after_chunk next found (err (raised e), st) =
        let again = next (push found e) st in
        if can_continue_to_read_chunk e then again else (err (raised e), st)

    unfoldable pub after_header :
        (ParseErrors DateTime → Processor × File → Parsing)
        → ParseErrors DateTime
        → Processor
        → Result (Fault ReadError) (Option Header) × File
        → Parsing
    after_header next found p (err e, file) = (err (map_fault from_read_error e), (p, file))
    after_header next found p (ok none, file) = (ended found, (p, file))
    after_header next found p (ok (some header), file) =
        if header_version header == format_version
        then after_chunk next found (parse_chunk header (p, file))
        else next found (p, file)

    -- The loop of `parse`, on fuel.
    unfoldable pub parse_file_loop : ℕ → ParseErrors DateTime → Processor × File → Parsing
    parse_file_loop zero found st = (err stuck, st)
    parse_file_loop (suc fuel) found (p, file) =
        after_header (parse_file_loop fuel) found p (read_header_or_reach_to_end file)

    -- `parse`, of an opened file. Every round reads a header.
    unfoldable pub parse_file : DCtx → C → File → Parsing
    parse_file context st file =
        parse_file_loop (length file.ahead + 1) no_errors
          (record { decompressor = context; encryption_keys = []; parser = new st }, file)
