-- ===== src/Extract/Parsed.antt =====
-- What is extracted can be parsed: extraction and parsing together.
use pinenut.Prelude.{
  not, ℕ, ◌≡◌, refl, sym, ap, ◌∙◌, List, [], ◌∷◌, ◌++◌, append_assoc, append-nil, map, concat,
  Bool-cases, inl, inr, All, Option, Result, ok, map_err, Exec, Sink, raised,
}
use pinenut.Errors.{IoError, CipherError}
use pinenut.Chrono.{Chrono, IsChrono}
use pinenut.Record.{Record}
use pinenut.Codec.Writes.{sink_all}
use pinenut.Chunk.{Header, start_datetime, end_datetime}
use pinenut.Chunk.Reader.{File, io}
use pinenut.Chunk.Reader.Payload.{Succeeds}
use pinenut.Chunk.Reader.Headers.{Mild}
use pinenut.Compress.{Zstd}
use pinenut.Compress.Stream.{IsDecoder}
use pinenut.Encrypt.{Aes, IsAes}
use pinenut.Parse.RecordParser.{buffer_len}
use pinenut.Parse.Streaming.{call_all}
use pinenut.Parse.Errors.{TimeRange}
use pinenut.Parse.Processor.{parse_file}
use pinenut.Parse.Chunks.{
  Written, IsWritten, payload_of, written_bytes, records_of, FileParsed, parse_file-FileParsed,
}
use pinenut.Extract.{extract_chunks}
use pinenut.Extract.Chunks.Layout.{Stored, IsStored, stored_bytes}
use pinenut.Extract.Chunks.{in_range, extract_chunks-Writes}

-- A writer that does not fail, and what it was given.
pub record IsWriter {W : Type 0} (write_all : Sink W IoError) (content : W → List ℕ) : Type 0 where
  pub succeeds : (bytes : List ℕ) (w : W) → (write_all bytes w).0 ≡ ok tt
  pub appends : (bytes : List ℕ) (w : W) → content (write_all bytes w).1 ≡ content w ++ bytes

module _ (c : Chrono) {W : Type 0} {write_all : Sink W IoError} {content : W → List ℕ}
    (writer : IsWriter write_all content) (range : TimeRange c.DateTime) where
  pub written-content :
      (pieces : List (List ℕ)) (w : W)
      → ((sink_all write_all pieces w).0 ≡ ok tt)
        × (content (sink_all write_all pieces w).1 ≡ content w ++ concat pieces)
  written-content [] w = (refl, sym (append-nil (content w)))
  written-content (p ∷ pieces) w =
      let (one, two) = written-content pieces (write_all p w).1 in
      rw (writer.succeeds p w) (
        one,
        two
            ∙ ap (λ t. t ++ concat pieces) (writer.appends p w)
            ∙ append_assoc (content w) p (concat pieces),
      )

  in_range-map :
      {A B : Type 0} (f : A → B) (header_of : B → Header) (xs : List A)
      → in_range c write_all range header_of (map f xs)
        ≡ map f (in_range c write_all range (λ a. header_of (f a)) xs)
  in_range-map f header_of [] = refl
  in_range-map f header_of (x ∷ xs) =
      elim (Bool-cases (not (c.leb (start_datetime c (header_of (f x))) range.1))) [
        | inl behind ↦ rw behind refl
        | inr not_behind ↦
            elim (Bool-cases (not (c.leb range.0 (end_datetime c (header_of (f x)))))) [
              | inl before ↦ rw (not_behind, before) (in_range-map f header_of xs)
              | inr within ↦
                  rw (not_behind, within) (ap (λ l. f x ∷ l) (in_range-map f header_of xs))
            ]
      ]

  pub in_range-All :
      {A : Type 0} (P : A → Type 0) (header_of : A → Header) (xs : List A)
      → All P xs
      → All P (in_range c write_all range header_of xs)
  in_range-All P header_of [] h = tt
  in_range-All P header_of (x ∷ xs) h =
      elim (Bool-cases (not (c.leb (start_datetime c (header_of x)) range.1))) [
        | inl behind ↦ rw behind tt
        | inr not_behind ↦ elim (Bool-cases (not (c.leb range.0 (end_datetime c (header_of x))))) [
          | inl before ↦ rw (not_behind, before) (in_range-All P header_of xs h.1)
          | inr within ↦ rw (not_behind, within) (h.0, in_range-All P header_of xs h.1)
        ]
      ]

  module _ (laws : IsChrono c) {C : Type 0} (callback : Record c → Exec C IoError (Unit {0}))
      {zstd : Zstd} (decoder : IsDecoder zstd) (aes : List ℕ → Aes)
      (ciphers : (key : List ℕ) → IsAes (aes key)) (rounds : ℕ)
      (ecdh_encryption_key : List ℕ → List ℕ → Result CipherError (List ℕ))
      (secret_key : Option (List ℕ)) where
    to_stored :
        Written laws callback decoder aes ciphers rounds ecdh_encryption_key secret_key → Stored
    to_stored w = record {
      header = w.header;
      payload =
          payload_of laws callback decoder aes ciphers rounds ecdh_encryption_key secret_key w;
    }

    IsWritten-IsStored :
        (ws : List
          (Written laws callback decoder aes ciphers rounds ecdh_encryption_key secret_key))
        → All (IsWritten laws callback decoder aes ciphers rounds ecdh_encryption_key secret_key) ws
        → All IsStored (map to_stored ws)
    unfolding to_stored
    IsWritten-IsStored [] h = tt
    IsWritten-IsStored (w ∷ ws) h =
        (record { bytes = h.0.bytes; magic = h.0.magic; len = h.0.len }, IsWritten-IsStored ws h.1)

    written-stored :
        (ws : List
          (Written laws callback decoder aes ciphers rounds ecdh_encryption_key secret_key))
        → map stored_bytes (map to_stored ws)
          ≡ map
              (written_bytes laws callback decoder aes ciphers rounds ecdh_encryption_key
                secret_key)
              ws
    unfolding to_stored
    written-stored [] = refl
    written-stored (w ∷ ws) =
        ap
          (λ l.
            written_bytes laws callback decoder aes ciphers rounds ecdh_encryption_key secret_key w
            ∷ l)
          (written-stored ws)

    -- From a file that the logger wrote, a writer that does not fail and was given nothing is given
    -- exactly what, parsed as a file, has the callback called with the records of the chunks that
    -- overlap with the range, in order: those before the first chunk that starts behind it, without
    -- those that end before it. Neither extraction nor parsing has an error, under the conditions of
    -- parsing on the chunks, the callback, the reads and the libraries; the seeks of extraction do not fail.
    pub extract_chunks-parse_file :
        (ws : List
          (Written laws callback decoder aes ciphers rounds ecdh_encryption_key secret_key))
        (w : W) (file left : File) (context : zstd.DCtx) (st st' : C)
        → All (IsWritten laws callback decoder aes ciphers rounds ecdh_encryption_key secret_key) ws
        → file.ahead
          ≡ concat (
              map
                (written_bytes laws callback decoder aes ciphers rounds ecdh_encryption_key
                  secret_key)
                ws)
        → All Mild file.events
        → All Succeeds file.seeks
        → content w ≡ []
        → left.ahead ≡ content (extract_chunks c write_all range (w, file)).1.0
        → All Mild left.events
        → decoder.Decodes context [] []
        → call_all laws callback buffer_len
            (records_of laws callback decoder aes ciphers rounds ecdh_encryption_key secret_key
              (in_range c write_all range (λ w. w.header) ws))
            st
          ≡ (ok tt, st')
        → ((extract_chunks c write_all range (w, file)).0 ≡ ok tt)
          × FileParsed laws callback decoder aes ciphers rounds ecdh_encryption_key secret_key st'
              (parse_file c callback zstd aes rounds ecdh_encryption_key secret_key context st left)
    unfolding to_stored
    extract_chunks-parse_file ws w file left context st st' written ahead mild sought empty same
          mild' at_end calls =
        let kept = in_range c write_all range (λ w. w.header) ws in
        let e =
          extract_chunks-Writes c write_all range (map to_stored ws) w file
            (IsWritten-IsStored ws written) (ahead ∙ ap concat (sym (written-stored ws))) mild
            sought in
        let (fine, given) = written-content e.pieces w in
        let bytes : left.ahead
            ≡ concat (
                map
                  (written_bytes laws callback decoder aes ciphers rounds ecdh_encryption_key
                    secret_key)
                  kept) =
          same
          ∙ ap content e.state
          ∙ given
          ∙ ap (λ t. t ++ concat e.pieces) empty
          ∙ e.same
          ∙ ap (λ l. concat (map stored_bytes l)) (in_range-map to_stored (λ s. s.header) ws)
          ∙ ap concat (written-stored kept) in
        (
          e.result ∙ ap (map_err (λ e. raised (io e))) fine,
          parse_file-FileParsed laws callback decoder aes ciphers rounds ecdh_encryption_key
              secret_key kept context left st st'
              (in_range-All
                (IsWritten laws callback decoder aes ciphers rounds ecdh_encryption_key secret_key)
                (λ w. w.header) ws written)
              bytes mild' at_end calls,
        )
