-- ===== src/Runs/Chunks.antt =====
-- A file of two chunks, one encrypted and one not, read in short pieces.
use pinenut.Prelude.{ℕ, refl, arith, List, [], ◌∷◌, some, none}
use pinenut.Common.LittleEndian.{from_le_bytes}
use pinenut.Codec.Varint.{varint}
use pinenut.Chunk.{Header, header_version, header_payload_len}
use pinenut.Parse.Split.{stream}
use pinenut.Parse.Chunks.{Written, IsWritten}
use pinenut.Runs.Clock.{clock, clock-IsChrono, up, up-IsRecord, late, late-IsRecord}
use pinenut.Runs.Chunk.{top, key}
use pinenut.Runs.Parse.{keep, agree}
use pinenut.Runs.Compress.{copy-IsDecoder}
use pinenut.Runs.Encrypt.{plus, plus-IsAes, repeat}

abbrev pub header_of : ℕ → List ℕ → Header
header_of n pub_key = record top { length = n ∷ 0 ∷ 0 ∷ 0 ∷ []; pub_key = pub_key }

abbrev pub encrypted :
    Written clock-IsChrono keep copy-IsDecoder
      (λ k. plus)
      (λ k. plus-IsAes)
      200
      agree
      (some (5 ∷ []))
encrypted = record {
  header = header_of 32 key;
  key = some (5 ∷ 2 ∷ []);
  frame = stream clock (up ∷ []);
  records = up ∷ [];
}

abbrev pub plain :
    Written clock-IsChrono keep copy-IsDecoder
      (λ k. plus)
      (λ k. plus-IsAes)
      200
      agree
      (some (5 ∷ []))
plain = record {
  header = header_of 14 (repeat 33 0);
  key = none;
  frame = stream clock (late ∷ []);
  records = late ∷ [];
}

pub encrypted-IsWritten :
    IsWritten clock-IsChrono keep copy-IsDecoder
      (λ k. plus)
      (λ k. plus-IsAes)
      200
      agree
      (some (5 ∷ []))
      encrypted
unfolding stream varint from_le_bytes pinenut.Codec.u64_or_zero header_version header_payload_len
encrypted-IsWritten = record {
  bytes = record {
    magic_len = refl;
    version_len = refl;
    length_len = refl;
    start_len = refl;
    end_len = refl;
    pub_key_len = refl;
  };
  magic = refl;
  version = refl;
  len = refl;
  complete = refl;
  obtains = refl;
  framed = refl;
  fits = (record { valid = up-IsRecord; since_epoch = tt; short = omega arith }, tt);
  enough = omega arith;
}

pub plain-IsWritten :
    IsWritten clock-IsChrono keep copy-IsDecoder
      (λ k. plus)
      (λ k. plus-IsAes)
      200
      agree
      (some (5 ∷ []))
      plain
unfolding stream varint from_le_bytes pinenut.Codec.u64_or_zero header_version header_payload_len
plain-IsWritten = record {
  bytes = record {
    magic_len = refl;
    version_len = refl;
    length_len = refl;
    start_len = refl;
    end_len = refl;
    pub_key_len = refl;
  };
  magic = refl;
  version = refl;
  len = refl;
  complete = refl;
  obtains = refl;
  framed = refl;
  fits = (record { valid = late-IsRecord; since_epoch = tt; short = omega arith }, tt);
  enough = omega arith;
}
