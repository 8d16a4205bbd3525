-- ===== src/Parse/Chunks.antt =====
-- A file of chunks is parsed into the records that were logged.
pub mod Payload
use pinenut.Prelude.{
  ℕ, zero, suc, ◌+◌, ◌≤◌, ◌<◌, ◌≡◌, append_assoc, refl, ap, subst, ◌∙◌, arith, List, [], ◌∷◌, ◌++◌,
  map, length, length-append, concat, false, All, Option, none, some, Result, ok, map_err, Exec,
  raised,
}
use pinenut.Errors.{IoError, CipherError}
use pinenut.Chrono.{Chrono, IsChrono}
use pinenut.Record.{Record}
use pinenut.Common.BytesBuf
use pinenut.Common.BytesBuf.{BytesBuf}
use pinenut.Common.Ends.{Ends-ok}
use pinenut.Codec.Writes.{sink_all}
use pinenut.Chunk.{
  Header, header_bytes, header_version, header_payload_len, format_version, chunk_magic,
}
use pinenut.Chunk.Layout.{IsHeader, length-header_bytes}
use pinenut.Chunk.Reader.{File, read_payload}
use pinenut.Chunk.Reader.Headers.{Mild, read_header-ReadsHeader, read_header-end}
use pinenut.Chunk.Reader.Payload.{read_payload-Sinks, at_next}
use pinenut.Compress.{Zstd}
use pinenut.Compress.Stream.{IsDecoder, decompress_all, decompress_all-Decompressed}
use pinenut.Encrypt.{Aes, IsAes}
use pinenut.Encrypt.Sinks.{holding}
use pinenut.Encrypt.Decrypt.{decrypt_all, decrypt_all-Decrypts}
use pinenut.Parse.RecordParser.{clear_buffer, buffer_len, new}
use pinenut.Parse.Split.{stream}
use pinenut.Parse.Streaming.{Fits, call_all, call_all-split, parser, feed-stream}
use pinenut.Parse.Keys.{IsCoherent, decryptor_key, obtain_decryptor, obtain_decryptor-IsCoherent}
use pinenut.Parse.Errors.{no_errors, from_read_error}
use pinenut.Common.LittleEndian.{from_le_bytes}
use pinenut.Parse.Processor.{
  Parsing, after_header, after_chunk, to_parser, decompression, decryption, to_decompressor,
  ChunkSink, chunk_sink, Processor, read_chunk, parse_chunk, parse_file_loop, parse_file,
  new_decryptor, time_range,
}
use pinenut.Parse.Pipeline.{
  feed-to_parser, decompress_all-to_decompressor, decrypt_pieces, decrypt_pieces-some,
  decrypt_pieces-none, decrypt_pieces-chunk_sink,
}
use pinenut.Parse.Chunks.Payload.{sealed, sealed-Opened}

module _ {c : Chrono} (laws : IsChrono c) {C : Type 0}
    (callback : Record c → Exec C IoError (Unit {0})) {zstd : Zstd} (decoder : IsDecoder zstd)
    (aes : List ℕ → Aes) (ciphers : (key : List ℕ) → IsAes (aes key)) (rounds : ℕ) where
  open zstd use {DCtx}
  open decoder use {Decodes, IsFrame}

  module _ (ecdh_encryption_key : List ℕ → List ℕ → Result CipherError (List ℕ))
      (secret_key : Option (List ℕ)) where
    -- A chunk as a logger leaves it in a file: the header fits the payload, which is a frame of a stream of
    -- records, encrypted if there is a key.
    pub record Written : Type 0 where
      pub header : Header
      pub key : Option (List ℕ)
      pub frame : List ℕ
      pub records : List (Record c)

    abbrev pub payload_of : Written → List ℕ
    payload_of w = sealed laws callback decoder aes ciphers rounds w.key w.frame

    pub record IsWritten (w : Written) : Type 0 where
      pub bytes : IsHeader w.header
      pub magic : from_le_bytes w.header.magic ≡ chunk_magic
      pub version : header_version w.header ≡ format_version
      pub len : header_payload_len w.header ≡ length (payload_of w)
      pub complete : w.header.writeback ≡ false
      pub obtains : decryptor_key ecdh_encryption_key secret_key w.header.pub_key ≡ ok w.key
      pub framed : IsFrame w.frame (stream c w.records)
      pub fits : All (Fits laws callback buffer_len) w.records
      pub enough : length w.frame + length (stream c w.records) ≤ rounds

    -- A processor between two chunks, with the state of the callback.
    pub record Ready (st : C) (p : Processor c callback zstd aes rounds) : Type 0 where
      pub at_end : Decodes p.decompressor [] []
      pub keys : IsCoherent ecdh_encryption_key secret_key p.encryption_keys
      pub empty : p.parser ≡ parser laws callback buffer_len [] st

    record ChunkParsed (w : Written) (more : List ℕ) (st' : C)
        (p : Processor c callback zstd aes rounds) (file : File) : Type 0 where
      after : Processor c callback zstd aes rounds
      left : File
      runs :
          parse_chunk c callback zstd aes rounds ecdh_encryption_key secret_key w.header (p, file)
          ≡ (ok tt, (after, left))
      ready : Ready st' after
      ahead : left.ahead ≡ more
      mild : All Mild left.events

    parse_chunk-ChunkParsed :
        (w : Written) (more : List ℕ) (p : Processor c callback zstd aes rounds) (file : File)
        (st st' : C)
        → IsWritten w
        → file.ahead ≡ payload_of w ++ more
        → All Mild file.events
        → Ready st p
        → call_all laws callback buffer_len w.records st ≡ (ok tt, st')
        → ChunkParsed w more st' p file
    unfolding parse_chunk clear_buffer BytesBuf.clear
    parse_chunk-ChunkParsed w more p file st st' is_written ahead mild ready calls =
        let (key_ok, coherent) =
          obtain_decryptor-IsCoherent ecdh_encryption_key secret_key w.header.pub_key
            p.encryption_keys ready.keys in
        let range = time_range c callback zstd aes rounds ecdh_encryption_key secret_key w.header in
        let s =
          read_payload-Sinks
            (chunk_sink c callback zstd aes rounds (length (payload_of w)) (ok w.key) range false)
            (λ e. raised (from_read_error e)) buffer_len (payload_of w) more file (omega arith)
            ahead mild in
        let o =
          sealed-Opened laws callback decoder aes ciphers rounds w.key w.records w.frame s.pieces
            p.decompressor st st' s.full s.same is_written.fits is_written.framed is_written.enough
            ready.at_end calls in
        let start : ChunkSink c callback zstd aes rounds = record {
          read_len = 0;
          decryptor = new_decryptor;
          context = p.decompressor;
          parser = p.parser;
        } in
        let sunk =
          decrypt_pieces-chunk_sink c callback zstd aes rounds w.key range (length (payload_of w))
            s.pieces start o.left o.after (parser laws callback buffer_len [] st') s.full
            (omega (arith, ap length s.same)) refl (rw ready.empty o.runs) in
        let e = s.ends start in
        let found_key = key_ok ∙ is_written.obtains in
        let out =
          read_payload
            (chunk_sink c callback zstd aes rounds (length (payload_of w)) (ok w.key) range false)
            (λ e. raised (from_read_error e)) buffer_len (length (payload_of w)) (start, file) in
        let final : ChunkSink c callback zstd aes rounds = record {
          read_len = length (payload_of w);
          decryptor = o.left;
          context = o.after;
          parser = parser laws callback buffer_len [] st';
        } in
        let fine : out.0 ≡ ok tt = e.result ∙ ap (λ r. map_err raised r.0) sunk in
        let behind : out.1.1.ahead ≡ more =
          at_next
            (chunk_sink c callback zstd aes rounds (length (payload_of w)) (ok w.key) range false)
            (λ e. raised (from_read_error e)) buffer_len file.seeks more _ out e
            (ap (λ r. r.0) sunk) in
        let left : out.1.0 ≡ final = e.state ∙ ap (λ r. r.1) sunk in
        let whole : out ≡ (ok tt, (final, out.1.1)) = λ i. (fine i, (left i, out.1.1)) in
        record {
          after = record {
            decompressor = o.after;
            encryption_keys =
                (obtain_decryptor ecdh_encryption_key secret_key w.header.pub_key
                  p.encryption_keys).1;
            parser = parser laws callback buffer_len [] st';
          };
          left = out.1.1;
          runs =
              (λ i.
                read_chunk c callback zstd aes rounds ecdh_encryption_key secret_key
                  (obtain_decryptor ecdh_encryption_key secret_key w.header.pub_key
                    p.encryption_keys).1
                  (is_written.len i) (found_key i) range (is_written.complete i) (p, file))
              ∙ rw whole refl;
          ready = record { at_end = o.at_end; keys = coherent; empty = refl };
          ahead = behind;
          mild = e.mild;
        }

    abbrev pub written_bytes : Written → List ℕ
    written_bytes w = header_bytes w.header ++ payload_of w

    abbrev pub records_of : List Written → List (Record c)
    records_of ws = concat (map (λ w. w.records) ws)

    -- Parsing ends without an error and with the processor between two chunks.
    pub record FileParsed (st' : C)
        (out : Parsing c callback zstd aes rounds ecdh_encryption_key secret_key) : Type 0 where
      pub after : Processor c callback zstd aes rounds
      pub left : File
      pub runs : out ≡ (ok tt, (after, left))
      pub ready : Ready st' after

    loop-FileParsed :
        (ws : List Written) (fuel : ℕ) (p : Processor c callback zstd aes rounds) (file : File)
        (st st' : C)
        → length ws < fuel
        → All IsWritten ws
        → file.ahead ≡ concat (map written_bytes ws)
        → All Mild file.events
        → Ready st p
        → call_all laws callback buffer_len (records_of ws) st ≡ (ok tt, st')
        → FileParsed st' (
            parse_file_loop c callback zstd aes rounds ecdh_encryption_key secret_key fuel no_errors
              (p, file))
    unfolding parse_file_loop after_header after_chunk
    loop-FileParsed ws zero p file st st' h written ahead mild ready calls = absurd (omega arith)
    loop-FileParsed [] (suc fuel) p file st st' h written ahead mild ready calls =
        let (left, e) = read_header-end file ahead mild in
        let same : st ≡ st' = cc (calls) in
        record {
          after = p;
          left = left;
          runs = rw e refl;
          ready = subst (λ t. Ready t p) same ready;
        }
    loop-FileParsed (w ∷ ws) (suc fuel) p file st st' h written ahead mild ready calls =
        let rest = concat (map written_bytes ws) in
        let r =
          read_header-ReadsHeader w.header (payload_of w ++ rest) file written.0.bytes
            written.0.magic (ahead ∙ append_assoc (header_bytes w.header) (payload_of w) rest)
            mild in
        let (mid, calls1, calls2) =
          call_all-split laws callback buffer_len w.records (records_of ws) st st' calls in
        let one =
          parse_chunk-ChunkParsed w rest p r.after st mid written.0 r.ahead r.mild ready calls1 in
        let two =
          loop-FileParsed ws fuel one.after one.left mid st' (omega arith) written.1 one.ahead
            one.mild one.ready calls2 in
        record {
          after = two.after;
          left = two.left;
          runs = rw (r.returns, written.0.version, one.runs) two.runs;
          ready = two.ready;
        }

    length-written :
        (ws : List Written) → All IsWritten ws → length ws ≤ length (concat (map written_bytes ws))
    length-written [] written = omega arith
    length-written (w ∷ ws) written = omega (
      arith,
      length-written ws written.1,
      length-append (written_bytes w) (concat (map written_bytes ws)),
      length-append (header_bytes w.header) (payload_of w),
      length-header_bytes w.header written.0.bytes,
    )

    pub parse_file-FileParsed :
        (ws : List Written) (context : DCtx) (file : File) (st st' : C)
        → All IsWritten ws
        → file.ahead ≡ concat (map written_bytes ws)
        → All Mild file.events
        → Decodes context [] []
        → call_all laws callback buffer_len (records_of ws) st ≡ (ok tt, st')
        → FileParsed st'
            (parse_file c callback zstd aes rounds ecdh_encryption_key secret_key context st file)
    unfolding parse_file new BytesBuf.with_capacity
    parse_file-FileParsed ws context file st st' written ahead mild at_end calls =
        loop-FileParsed ws (length file.ahead + 1) _ file st st'
          (omega (arith, ap length ahead, length-written ws written)) written ahead mild
          (record { at_end = at_end; keys = none_kept secret_key; empty = refl }) calls
      where
        none_kept : (k : Option (List ℕ)) → IsCoherent ecdh_encryption_key k []
        none_kept none = refl
        none_kept (some k) = tt
