-- ===== src/Parse/Chunks/Payload.antt =====
-- The payload of a chunk goes through the decryptor and the decompressor into the parser.
use pinenut.Prelude.{
  ℕ, ◌+◌, ◌≤◌, ◌≡◌, arith, List, [], length, concat, All, Option, none, some, ok, Exec,
}
use pinenut.Errors.{IoError}
use pinenut.Chrono.{Chrono, IsChrono}
use pinenut.Record.{Record}
use pinenut.Common.BytesBuf.{BytesBuf}
use pinenut.Common.Ends.{Ends-ok}
use pinenut.Codec.Writes.{sink_all}
use pinenut.Compress.{Zstd}
use pinenut.Compress.Stream.{IsDecoder, decompress_all, decompress_all-Decompressed}
use pinenut.Encrypt.{Aes, IsAes}
use pinenut.Encrypt.Sinks.{holding}
use pinenut.Encrypt.Decrypt.{decrypt_all, decrypt_all-Decrypts}
use pinenut.Parse.RecordParser.{buffer_len}
use pinenut.Parse.Split.{stream}
use pinenut.Parse.Streaming.{Fits, call_all, parser, feed-stream}
use pinenut.Parse.Processor.{to_parser, decompression, decryption, to_decompressor, new_decryptor}
use pinenut.Parse.Pipeline.{
  feed-to_parser, decompress_all-to_decompressor, decrypt_pieces, decrypt_pieces-some,
  decrypt_pieces-none,
}

module _ {c : Chrono} (laws : IsChrono c) {C : Type 0}
    (callback : Record c → Exec C IoError (Unit {0})) {zstd : Zstd} (decoder : IsDecoder zstd)
    (aes : List ℕ → Aes) (ciphers : (key : List ℕ) → IsAes (aes key)) (rounds : ℕ) where
  open zstd use {DCtx}
  open decoder use {Decodes, IsFrame}

  abbrev pub sealed : Option (List ℕ) → List ℕ → List ℕ
  sealed none frame = frame
  sealed (some key) frame = (aes key).encrypt_blocks ((aes key).pad frame)

  -- The decompressor makes the parser call back the records of a frame.
  record Unpacked (context : DCtx) (inputs : List (List ℕ)) (st st' : C) : Type 0 where
    after : DCtx
    at_end : Decodes after [] []
    runs :
        sink_all
          (to_decompressor c callback zstd aes rounds)
          inputs
          (context, parser laws callback buffer_len [] st)
        ≡ (ok tt, (after, parser laws callback buffer_len [] st'))

  frame-Unpacked :
      (rs : List (Record c)) (inputs : List (List ℕ)) (context : DCtx) (st st' : C)
      → All (Fits laws callback buffer_len) rs
      → IsFrame (concat inputs) (stream c rs)
      → length (concat inputs) + length (stream c rs) ≤ rounds
      → Decodes context [] []
      → call_all laws callback buffer_len rs st ≡ (ok tt, st')
      → Unpacked context inputs st st'
  frame-Unpacked rs inputs context st st' fits frame enough ready calls =
      let r =
        decompress_all-Decompressed (to_parser c callback zstd aes rounds) decompression decoder
          inputs rounds context (stream c rs) enough ready frame in
      let fed = feed-stream laws callback buffer_len rs r.pieces st st' fits r.out calls in
      let sunk = feed-to_parser c callback zstd aes rounds r.pieces _ _ fed in
      record {
        after = r.after;
        at_end = r.at_end;
        runs = decompress_all-to_decompressor c callback zstd aes rounds decoder inputs _ _ (
            Ends-ok (to_parser c callback zstd aes rounds) r.after r.pieces
              (decompress_all (to_parser c callback zstd aes rounds) decompression decoder rounds
                inputs)
              _ _ _ (r.ends (parser laws callback buffer_len [] st)) sunk);
      }

  -- The decryptor too, without a key or with one.
  pub record Opened (key : Option (List ℕ)) (context : DCtx) (pieces : List (List ℕ)) (st st' : C)
      : Type 0 where
    pub left : BytesBuf
    pub after : DCtx
    pub at_end : Decodes after [] []
    pub runs :
        decrypt_pieces c callback zstd aes rounds key pieces
          (new_decryptor, (context, parser laws callback buffer_len [] st))
        ≡ (ok tt, (left, (after, parser laws callback buffer_len [] st')))

  pub sealed-Opened :
      (key : Option (List ℕ)) (rs : List (Record c)) (frame : List ℕ) (pieces : List (List ℕ))
      (context : DCtx) (st st' : C)
      → All (λ p. 1 ≤ length p) pieces
      → concat pieces ≡ sealed key frame
      → All (Fits laws callback buffer_len) rs
      → IsFrame frame (stream c rs)
      → length frame + length (stream c rs) ≤ rounds
      → Decodes context [] []
      → call_all laws callback buffer_len rs st ≡ (ok tt, st')
      → Opened key context pieces st st'
  sealed-Opened none rs frame pieces context st st' full same fits framed enough ready calls =
      let u =
        frame-Unpacked rs pieces context st st' fits (rw same framed) (rw same enough) ready
          calls in
      record {
        left = new_decryptor;
        after = u.after;
        at_end = u.at_end;
        runs = decrypt_pieces-none c callback zstd aes rounds pieces new_decryptor _ _ u.runs;
      }
  sealed-Opened (some key) rs frame pieces context st st' full same fits framed enough ready calls =
      let d =
        decrypt_all-Decrypts (ciphers key) (to_decompressor c callback zstd aes rounds) decryption
          1024 pieces frame (omega arith) full same in
      let u =
        frame-Unpacked rs d.pieces context st st' fits (rw d.out framed) (rw d.out enough) ready
          calls in
      record {
        left = holding (aes key) (to_decompressor c callback zstd aes rounds) decryption 1024 [];
        after = u.after;
        at_end = u.at_end;
        runs = rw (decrypt_pieces-some c callback zstd aes rounds key (ciphers key) pieces) (
            Ends-ok (to_decompressor c callback zstd aes rounds) _ d.pieces
              (decrypt_all (ciphers key) (to_decompressor c callback zstd aes rounds) decryption
                1024 pieces)
              _ _ _ (d.gives _) u.runs);
      }
