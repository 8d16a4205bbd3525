-- ===== src/Chunk/Write/Initialize.antt =====
-- `initialize` empties a chunk, whatever its memory held, and runs of writes after it.
use pinenut.Prelude.{
  ℕ, ◌<◌, ◌^◌, ◌≡◌, refl, ap, subst, arith, List, [], ◌∷◌, length, take, false, Option, none, some,
  Result,
}
use pinenut.Chrono.{Chrono, IsChrono, unwrap_or_default}
use pinenut.Common.LittleEndian.{
  to_le_bytes, from_le_bytes, length-to_le_bytes, from_le_bytes-to_le_bytes, i64_from_le_bytes-to,
  length-i64_to_le_bytes,
}
use pinenut.Chunk.{
  Chunk, Overflow, capacity, payload_len, header_version, header_payload_len, initialize, write,
  start_datetime, end_datetime, chunk_magic, format_version,
}
use pinenut.Chunk.Write.{contents, IsChunk, append, write-Appends}

-- A run of writes, each of whose results is kept, and what the specification makes of it.
unfoldable pub write_all :
    List (List ℕ) → Chunk → Option (List (Result Overflow (Unit {0})) × Chunk)
write_all [] c = some ([], c)
write_all (bytes ∷ pieces) c = and_then (write_all pieces) (write bytes c)
  where
    and_rest :
        Result Overflow (Unit {0})
        → Option (List (Result Overflow (Unit {0})) × Chunk)
        → Option (List (Result Overflow (Unit {0})) × Chunk)
    and_rest r none = none
    and_rest r (some (rs, c)) = some (r ∷ rs, c)

    and_then :
        (Chunk → Option (List (Result Overflow (Unit {0})) × Chunk))
        → Option (Result Overflow (Unit {0}) × Chunk)
        → Option (List (Result Overflow (Unit {0})) × Chunk)
    and_then next none = none
    and_then next (some (r, c)) = and_rest r (next c)

abbrev pub append_all : ℕ → List (List ℕ) → List ℕ → List (Result Overflow (Unit {0})) × List ℕ
append_all cap [] log = ([], log)
append_all cap (bytes ∷ pieces) log =
    let (r, log) = append cap bytes log in
    let (rs, log) = append_all cap pieces log in (r ∷ rs, log)

pub record Run (pieces : List (List ℕ)) (log : List ℕ) (c : Chunk) : Type 0 where
  pub results : List (Result Overflow (Unit {0}))
  pub after : Chunk
  pub returns : write_all pieces c ≡ some (results, after)
  pub refines : append_all (capacity c) pieces log ≡ (results, contents after)
  pub keeps : IsChunk after

append_all-step :
    (cap : ℕ) (bytes : List ℕ) (pieces : List (List ℕ)) (log mid : List ℕ)
    {r : Result Overflow (Unit {0})} {rs : List (Result Overflow (Unit {0}))} {left : List ℕ}
    → append cap bytes log ≡ (r, mid)
    → append_all cap pieces mid ≡ (rs, left)
    → append_all cap (bytes ∷ pieces) log ≡ (r ∷ rs, left)
append_all-step cap bytes pieces log mid one more = rw (one, more) refl

write_all-Run : (pieces : List (List ℕ)) (c : Chunk) → IsChunk c → Run pieces (contents c) c
unfolding write_all
write_all-Run [] c h = record { results = []; after = c; returns = refl; refines = refl; keeps = h }
write_all-Run (bytes ∷ pieces) c h =
    let w = write-Appends bytes c h in
    let r = write_all-Run pieces w.after w.keeps in
    record {
      results = w.result ∷ r.results;
      after = r.after;
      returns = rw (w.returns, r.returns) refl;
      refines =
          append_all-step (capacity c) bytes pieces (contents c) (contents w.after) w.refines (
            subst (λ cap. append_all cap pieces (contents w.after) ≡ (r.results, contents r.after))
              w.same_capacity r.refines);
      keeps = r.keeps;
    }

module _ {c : Chrono} (laws : IsChrono c) where
  open c use {DateTime, timestamp, from_timestamp, default}

  -- A chunk that nothing has been written to.
  pub record Fresh (datetime : DateTime) (pub_key : List ℕ) (cap : ℕ) (chunk : Chunk) : Type 0 where
    pub valid : IsChunk chunk
    pub empty : contents chunk ≡ []
    pub same_capacity : capacity chunk ≡ cap
    pub version : header_version chunk.header ≡ format_version
    pub writeback : chunk.header.writeback ≡ false
    pub key : chunk.header.pub_key ≡ pub_key
    pub start :
        start_datetime c chunk.header
        ≡ unwrap_or_default default (from_timestamp (timestamp datetime) 0)
    pub end_ :
        end_datetime c chunk.header
        ≡ unwrap_or_default default (from_timestamp (timestamp datetime) 0)

  pub initialize-Fresh :
      (datetime : DateTime) (pub_key : List ℕ) (chunk : Chunk)
      → length pub_key ≡ 33
      → capacity chunk < 2 ^ 32
      → Fresh datetime pub_key (capacity chunk) (initialize c datetime pub_key chunk)
  unfolding initialize header_version payload_len header_payload_len start_datetime end_datetime
  initialize-Fresh datetime pub_key chunk hk hc =
      let zero_len : from_le_bytes (to_le_bytes 4 0) ≡ 0 =
        from_le_bytes-to_le_bytes 4 0 (omega arith) in
      let time = i64_from_le_bytes-to (timestamp datetime) (laws.timestamp_i64 datetime) in
      record {
        valid = record {
          layout = record {
            magic_len = length-to_le_bytes 4 chunk_magic;
            version_len = length-to_le_bytes 2 format_version;
            length_len = length-to_le_bytes 4 0;
            start_len = length-i64_to_le_bytes (timestamp datetime);
            end_len = length-i64_to_le_bytes (timestamp datetime);
            pub_key_len = hk;
          };
          magic = from_le_bytes-to_le_bytes 4 chunk_magic (omega arith);
          within = omega (arith, zero_len);
          u32 = hc;
        };
        empty = ap (λ n. take n chunk.payload) zero_len;
        same_capacity = refl;
        version = from_le_bytes-to_le_bytes 2 format_version (omega arith);
        writeback = refl;
        key = refl;
        start = ap (λ t. unwrap_or_default default (from_timestamp t 0)) time;
        end_ = ap (λ t. unwrap_or_default default (from_timestamp t 0)) time;
      }

  -- Whatever memory a chunk of fewer than 2^32 bytes is bound to, after `initialize` with a key of 33
  -- bytes it is valid and empty, with the version, the key and the second of the date that it was
  -- given; and any writes after that give the results, and leave the contents, of the specification,
  -- an empty log of the same capacity.
  pub initialize-writes :
      (datetime : DateTime) (pub_key : List ℕ) (chunk : Chunk) (pieces : List (List ℕ))
      → length pub_key ≡ 33
      → capacity chunk < 2 ^ 32
      → Fresh datetime pub_key (capacity chunk) (initialize c datetime pub_key chunk)
        × Run pieces [] (initialize c datetime pub_key chunk)
  initialize-writes datetime pub_key chunk pieces hk hc =
      let fresh = initialize-Fresh datetime pub_key chunk hk hc in
      (
        fresh,
        subst (λ log. Run pieces log (initialize c datetime pub_key chunk)) fresh.empty
            (write_all-Run pieces (initialize c datetime pub_key chunk) fresh.valid),
      )
