-- ===== src/Parse/Pipeline.antt =====
-- The steps between a chunk's payload and the callback, when all of them succeed.
use pinenut.Prelude.{
  ℕ, ◌+◌, ◌≤◌, ◌≡◌, refl, ap, arith, List, [], ◌∷◌, length, length-append, concat, true, false,
  ◌==◌, All, Option, none, some, Result, ok, err, Exec, Fault, continue, ◌>>◌, pure, >>=-eq-ok,
}
use pinenut.Errors.{IoError, ChunkError}
use pinenut.Chrono.{Chrono}
use pinenut.Record.{Record}
use pinenut.Common.BytesBuf.{BytesBuf}
use pinenut.Codec.Writes.{sink_all}
use pinenut.Compress.{Zstd, decompress}
use pinenut.Compress.Stream.{IsDecoder, decompress_all}
use pinenut.Encrypt.{Aes, IsAes, decrypt_optional, passed}
use pinenut.Encrypt.Decrypt.{decrypt_all}
use pinenut.Parse.RecordParser.{RecordParser, parse_all, after_feed, feed, clear_buffer}
use pinenut.Parse.Errors.{TimeRange}
use pinenut.Parse.Processor.{
  to_parser, parsed, decompression, decryption, to_decompressor, ChunkSink, decrypt_with,
  chunk_sink,
}

module _ (c : Chrono) {C : Type 0} (callback : Record c → Exec C IoError (Unit {0})) (zstd : Zstd)
    (aes : List ℕ → Aes) (rounds : ℕ) where
  open c use {DateTime}
  open zstd use {DCtx}

  pub feed-to_parser :
      (pieces : List (List ℕ)) (p q : RecordParser C)
      → feed c callback pieces p ≡ some (ok tt, q)
      → sink_all (to_parser c callback zstd aes rounds) pieces p ≡ (ok tt, q)
  unfolding feed after_feed
  feed-to_parser [] p q h = cc
  feed-to_parser (piece ∷ pieces) p q h =
      go (parse_all c callback (length piece) piece p) (feed-to_parser pieces) h
    where
      go :
          (o : Option (Result ChunkError (Unit {0}) × RecordParser C))
          → ((p' q : RecordParser C)
              → feed c callback pieces p' ≡ some (ok tt, q)
              → sink_all (to_parser c callback zstd aes rounds) pieces p' ≡ (ok tt, q))
          → after_feed c callback (feed c callback pieces) o ≡ some (ok tt, q)
          → (let (r, p') = parsed c callback zstd aes rounds p o in
              continue r (λ _. sink_all (to_parser c callback zstd aes rounds) pieces) p')
            ≡ (ok tt, q)
      go none again e = cc
      go (some (ok u, p')) again e = again p' q e
      go (some (err x, p')) again e = cc

  pub decompress_all-to_decompressor :
      (laws : IsDecoder zstd) (inputs : List (List ℕ)) (st st' : DCtx × RecordParser C)
      → decompress_all (to_parser c callback zstd aes rounds) decompression laws rounds inputs st
        ≡ (ok tt, st')
      → sink_all (to_decompressor c callback zstd aes rounds) inputs st ≡ (ok tt, st')
  unfolding to_decompressor
  decompress_all-to_decompressor laws [] st st' h = cc
  decompress_all-to_decompressor laws (bytes ∷ inputs) st st' h =
      let (u, mid, one, more) =
        >>=-eq-ok
          (decompress (to_parser c callback zstd aes rounds) decompression zstd rounds bytes)
          (λ _.
            decompress_all (to_parser c callback zstd aes rounds) decompression laws rounds inputs)
          st h in
      rw one (decompress_all-to_decompressor laws inputs mid st' more)

  -- The decryptor's calls for a payload that is read in pieces: the end is reached with the last.
  abbrev pub decrypt_pieces :
      Option (List ℕ)
      → List (List ℕ)
      → Exec (BytesBuf × (DCtx × RecordParser C)) (Fault (Fault ChunkError)) (Unit {0})
  decrypt_pieces key [] = pure tt
  decrypt_pieces key (p ∷ []) = decrypt_with c callback zstd aes rounds key true p
  decrypt_pieces key (p ∷ (q ∷ ps)) =
      decrypt_with c callback zstd aes rounds key false p >> decrypt_pieces key (q ∷ ps)

  pub decrypt_pieces-some :
      (key : List ℕ) (laws : IsAes (aes key)) (pieces : List (List ℕ))
      → decrypt_pieces (some key) pieces
        ≡ decrypt_all laws (to_decompressor c callback zstd aes rounds) decryption 1024 pieces
  unfolding decrypt_with decrypt_optional
  decrypt_pieces-some key laws [] = refl
  decrypt_pieces-some key laws (p ∷ []) = refl
  decrypt_pieces-some key laws (p ∷ (q ∷ ps)) =
      ap (λ k. decrypt_with c callback zstd aes rounds (some key) false p >> k)
        (decrypt_pieces-some key laws (q ∷ ps))

  pub decrypt_pieces-none :
      (pieces : List (List ℕ)) (b : BytesBuf) (st st' : DCtx × RecordParser C)
      → sink_all (to_decompressor c callback zstd aes rounds) pieces st ≡ (ok tt, st')
      → decrypt_pieces none pieces (b, st) ≡ (ok tt, (b, st'))
  unfolding decrypt_with decrypt_optional passed
  decrypt_pieces-none [] b st st' h = cc
  decrypt_pieces-none (p ∷ []) b st st' h =
      let (u, mid, one, more) =
        >>=-eq-ok (to_decompressor c callback zstd aes rounds p) (λ _. pure tt) st h in
      rw one cc
  decrypt_pieces-none (p ∷ (q ∷ ps)) b st st' h =
      let (u, mid, one, more) =
        >>=-eq-ok (to_decompressor c callback zstd aes rounds p)
          (λ _. sink_all (to_decompressor c callback zstd aes rounds) (q ∷ ps)) st h in
      rw one (decrypt_pieces-none (q ∷ ps) b mid st' more)

  -- The sink of a chunk that is not written back makes these calls, and clears the parser's buffer.
  pub decrypt_pieces-chunk_sink :
      (key : Option (List ℕ)) (range : TimeRange DateTime) (payload_len : ℕ)
      (pieces : List (List ℕ)) (s : ChunkSink c callback zstd aes rounds) (b : BytesBuf) (d : DCtx)
      (p : RecordParser C)
      → All (λ p. 1 ≤ length p) pieces
      → s.read_len + length (concat pieces) ≡ payload_len
      → clear_buffer p ≡ p
      → decrypt_pieces key pieces (s.decryptor, (s.context, s.parser)) ≡ (ok tt, (b, (d, p)))
      → sink_all (chunk_sink c callback zstd aes rounds payload_len (ok key) range false) pieces s
        ≡ (ok tt, record { read_len = payload_len; decryptor = b; context = d; parser = p })
  unfolding chunk_sink
  decrypt_pieces-chunk_sink key range payload_len [] s b d p full size clear h =
      let read : s.read_len ≡ payload_len = omega arith in
      let e1 : s.decryptor ≡ b = cc (h) in
      let e2 : s.context ≡ d = cc (h) in
      let e3 : s.parser ≡ p = cc (h) in
      λ i. (ok tt, record { read_len = read i; decryptor = e1 i; context = e2 i; parser = e3 i })
  decrypt_pieces-chunk_sink key range payload_len (x ∷ []) s b d p full size clear h =
      let last : (s.read_len + length x == payload_len) ≡ true =
        ground (arith, length-append x []) in
      let read : s.read_len + length x ≡ payload_len = omega (arith, length-append x []) in
      rw (last, h, clear)
        (λ i. (ok tt, record { read_len = read i; decryptor = b; context = d; parser = p }))
  decrypt_pieces-chunk_sink key range payload_len (x ∷ (y ∷ ys)) s b d p full size clear h =
      let later : (s.read_len + length x == payload_len) ≡ false =
        ground (arith, full.1.0, length-append x (concat (y ∷ ys)), length-append y (concat ys)) in
      let (u, (b1, (d1, p1)), one, more) =
        >>=-eq-ok (decrypt_with c callback zstd aes rounds key false x)
          (λ _. decrypt_pieces key (y ∷ ys)) (s.decryptor, (s.context, s.parser)) h in
      rw (later, one)
        (decrypt_pieces-chunk_sink key range payload_len (y ∷ ys)
          (record { read_len = s.read_len + length x; decryptor = b1; context = d1; parser = p1 }) b
          d p full.1 (omega (arith, length-append x (concat (y ∷ ys)))) clear more)
