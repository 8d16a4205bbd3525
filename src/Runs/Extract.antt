-- ===== src/Runs/Extract.antt =====
-- Extraction from a file of three chunks, of which one is too early.
pub mod Listing
use pinenut.Prelude.{
  ℕ, ◌≡◌, refl, List, [], ◌∷◌, ◌++◌, map, concat, some, ok, Result, Bool, All, Sink,
}
use pinenut.Errors.{IoError}
use pinenut.Common.LittleEndian.{from_le_bytes, i64_from_le_bytes}
use pinenut.Chunk.{Header, header_payload_len, start_datetime, end_datetime}
use pinenut.Parse.Processor.{parse_file}
use pinenut.Parse.Chunks.{FileParsed, written_bytes}
use pinenut.Compress.{is_empty}
use pinenut.Extract.{extract_chunks, select, extract, check_found}
use pinenut.Extract.Found.{found, in_files, Held, IsHeld, bytes_of, extract-found}
use pinenut.Extract.Chunks.Layout.{Stored, IsStored, stored_bytes}
use pinenut.Extract.Chunks.{in_range, Writes, extract_chunks-Writes}
use pinenut.Extract.Parsed.{IsWriter, extract_chunks-parse_file}
use pinenut.Extract.Files.{Chosen, select-Chosen}
use pinenut.Runs.Clock.{Moment, dusk, morning, noon, clock, clock-IsChrono}
use pinenut.Runs.Chunk.{slow, top, top-IsHeader}
use pinenut.Runs.Chunks.{encrypted, plain, encrypted-IsWritten, plain-IsWritten}
use pinenut.Runs.Parse.{keep, agree}
use pinenut.Runs.Compress.{copy, copy-IsDecoder}
use pinenut.Runs.Encrypt.{plus, plus-IsAes, repeat}

abbrev pub collected : Sink (List ℕ) IoError
collected bytes held = (ok tt, held ++ bytes)

abbrev pub daytime : Moment × Moment
daytime = (morning, noon)

abbrev early : Header
early = record top { start = 240 ∷ 241 ∷ repeat 6 255; end_ = 240 ∷ 241 ∷ repeat 6 255 }

abbrev pair : List Stored
pair =
    record { header = early; payload = 8 ∷ 9 ∷ [] }
    ∷ record { header = top; payload = 3 ∷ 4 ∷ [] }
    ∷ []

pair-IsStored : All IsStored pair
unfolding from_le_bytes header_payload_len
pair-IsStored = (
  record {
    bytes = record {
      magic_len = refl;
      version_len = refl;
      length_len = refl;
      start_len = refl;
      end_len = refl;
      pub_key_len = refl;
    };
    magic = refl;
    len = refl;
  },
  (record { bytes = top-IsHeader; magic = refl; len = refl }, tt),
)

extract_chunks-Writes_example :
    Writes clock collected daytime
      (concat (map stored_bytes (in_range clock collected daytime (λ s. s.header) pair)))
      []
      (extract_chunks clock collected daytime ([], slow (concat (map stored_bytes pair))))
extract_chunks-Writes_example =
    extract_chunks-Writes clock collected daytime pair [] (slow (concat (map stored_bytes pair)))
      pair-IsStored refl (tt, (tt, (tt, tt))) tt

collected-IsWriter : IsWriter collected (λ held. held)
collected-IsWriter = record { succeeds = λ bytes w. refl; appends = λ bytes w. refl }

abbrev whole : List ℕ
whole = concat (
    map
      (written_bytes clock-IsChrono keep copy-IsDecoder (λ k. plus) (λ k. plus-IsAes) 200 agree
        (some (5 ∷ [])))
      (encrypted ∷ plain ∷ []))

extract_chunks-parse_file_example :
    ((extract_chunks clock collected daytime ([], slow whole)).0 ≡ ok tt)
    × FileParsed clock-IsChrono keep copy-IsDecoder
        (λ k. plus)
        (λ k. plus-IsAes)
        200
        agree
        (some (5 ∷ []))
        ((117 ∷ 112 ∷ []) ∷ (195 ∷ 169 ∷ []) ∷ [])
        (parse_file clock keep copy
          (λ k. plus)
          200
          agree
          (some (5 ∷ []))
          tt
          []
          (slow (extract_chunks clock collected daytime ([], slow whole)).1.0))
unfolding start_datetime end_datetime i64_from_le_bytes from_le_bytes
extract_chunks-parse_file_example =
    extract_chunks-parse_file clock collected-IsWriter daytime clock-IsChrono keep copy-IsDecoder
      (λ k. plus) (λ k. plus-IsAes) 200 agree (some (5 ∷ [])) (encrypted ∷ plain ∷ []) []
      (slow whole) (slow (extract_chunks clock collected daytime ([], slow whole)).1.0) tt []
      ((117 ∷ 112 ∷ []) ∷ (195 ∷ 169 ∷ []) ∷ []) (encrypted-IsWritten, (plain-IsWritten, tt)) refl
      (tt, (tt, (tt, tt))) tt refl refl (tt, (tt, (tt, tt))) refl refl

-- The file twice.
abbrev held : Held
held = record { file = slow (concat (map stored_bytes pair)); chunks = pair }

held-IsHeld : IsHeld held
held-IsHeld = record {
  stored = pair-IsStored;
  ahead = refl;
  mild = (tt, (tt, (tt, tt)));
  seeks = tt;
}

abbrev into_inner : List ℕ → Result IoError Bool × List ℕ
into_inner bytes = (ok (is_empty bytes), bytes)

extract-found_example :
    ((extract clock collected daytime into_inner (ok held.file ∷ ok held.file ∷ []) []).0
      ≡ found clock collected-IsWriter daytime
          (in_files clock collected-IsWriter daytime (held ∷ held ∷ [])))
    × ((extract clock collected daytime into_inner (ok held.file ∷ ok held.file ∷ []) []).1
        ≡ concat (map (bytes_of clock collected-IsWriter daytime) (held ∷ held ∷ [])))
extract-found_example =
    extract-found clock collected-IsWriter daytime into_inner (held ∷ held ∷ []) []
      (λ v. (refl, refl)) refl (held-IsHeld, (held-IsHeld, tt))
