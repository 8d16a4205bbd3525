-- ===== src/Runs/Chunk.antt =====
-- The theorems on chunks and their reader at a small chunk.
use pinenut.Prelude.{ℕ, refl, arith, List, [], ◌∷◌, ◌++◌, false, ok, some, Sink}
use pinenut.Errors.{interrupted}
use pinenut.Common.LittleEndian.{from_le_bytes}
use pinenut.Chunk.{Header, Chunk, bind, chunk_bytes, header_bytes, chunk_magic, initialize}
use pinenut.Chunk.Layout.{IsHeader}
use pinenut.Chunk.Write.Initialize.{Fresh, Run, initialize-writes}
use pinenut.Chunk.Reader.{ReadError, short, fails, File}
use pinenut.Chunk.Reader.Headers.{ReadsHeader, read_header-ReadsHeader}
use pinenut.Runs.Clock.{clock, clock-IsChrono, noon}

abbrev pub key : List ℕ
key =
    2 ∷ 1 ∷ 1 ∷ 1 ∷ 1 ∷ 1 ∷ 1 ∷ 1 ∷ 1 ∷ 1 ∷ 1 ∷ 1 ∷ 1 ∷ 1 ∷ 1 ∷ 1 ∷ 1 ∷ 1 ∷ 1 ∷ 1 ∷ 1 ∷ 1 ∷ 1 ∷ 1
    ∷ 1 ∷ 1 ∷ 1 ∷ 1 ∷ 1 ∷ 1 ∷ 1 ∷ 1 ∷ 1 ∷ []

abbrev time : List ℕ
time = 192 ∷ 168 ∷ 0 ∷ 0 ∷ 0 ∷ 0 ∷ 0 ∷ 0 ∷ []

abbrev pub top : Header
top = record {
  magic = 0x7C ∷ 0xCA ∷ 0xED ∷ 0xFE ∷ [];
  version = 1 ∷ 0 ∷ [];
  length = 2 ∷ 0 ∷ 0 ∷ 0 ∷ [];
  writeback = false;
  start = time;
  end_ = time;
  pub_key = key;
}

pub top-IsHeader : IsHeader top
top-IsHeader = record {
  magic_len = refl;
  version_len = refl;
  length_len = refl;
  start_len = refl;
  end_len = refl;
  pub_key_len = refl;
}

-- Five bytes, two of which are written.
abbrev five : Chunk
five = record { header = top; payload = 8 ∷ 9 ∷ 0 ∷ 0 ∷ 0 ∷ [] }

initialize-writes_example :
    Fresh clock-IsChrono noon key 5 (initialize clock noon key five)
    × Run ((1 ∷ []) ∷ (2 ∷ 3 ∷ 4 ∷ 5 ∷ 6 ∷ []) ∷ []) [] (initialize clock noon key five)
initialize-writes_example =
    initialize-writes clock-IsChrono noon key five ((1 ∷ []) ∷ (2 ∷ 3 ∷ 4 ∷ 5 ∷ 6 ∷ []) ∷ []) refl
      (omega arith)

-- Reads that are short and interrupted.
abbrev pub slow : List ℕ → File
slow ahead = record {
  ahead = ahead;
  events = short 20 ∷ fails interrupted ∷ short 1 ∷ [];
  seeks = [];
}

read_header-ReadsHeader_example :
    ReadsHeader (ok (some top)) (8 ∷ 9 ∷ []) (slow (header_bytes top ++ (8 ∷ 9 ∷ [])))
unfolding from_le_bytes
read_header-ReadsHeader_example =
    read_header-ReadsHeader top (8 ∷ 9 ∷ []) (slow (header_bytes top ++ (8 ∷ 9 ∷ []))) top-IsHeader
      refl refl (tt, (tt, (tt, tt)))

-- A sink that keeps everything.
abbrev collect : Sink (List ℕ) ReadError
collect bytes held = (ok tt, held ++ bytes)

abbrev same_error : ReadError → ReadError
same_error e = e
