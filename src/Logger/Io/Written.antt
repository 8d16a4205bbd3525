-- ===== src/Logger/Io/Written.antt =====
-- A chunk that is handed over arrives in a log file.
use pinenut.Prelude.{
  ℕ, zero, suc, ◌+◌, ◌<◌, ◌≡◌, sym, ap, ◌∙◌, arith, List, [], ◌∷◌, ◌++◌, length, length-append,
  take, min, false, ◌==◌, some,
}
use pinenut.Chrono.{Chrono}
use pinenut.Common.LittleEndian.{to_le_bytes, from_le_bytes-to_le_bytes, length-to_le_bytes}
use pinenut.Chunk.{
  Chunk, bind, chunk_bytes, header_bytes, payload_len, header_payload_len, capacity, clear,
  set_payload_len, deref,
}
use pinenut.Chunk.Layout.{IsHeader, length-header_bytes, bind-chunk_bytes}
use pinenut.Chunk.Write.{IsChunk, contents}
use pinenut.Buffer.{Side, right, left, as_slice, write_slice, side_len}
use pinenut.Buffer.Sides.{IsBuffer}
use pinenut.Buffer.Writes.{write_slice-Isolated}
use pinenut.Logger.Rotation.{put_all}
use pinenut.Logger.Io.{Io, logfile_for, write_to, io_write_chunk}
use pinenut.Logfile.Files.{FileSystem}
use pinenut.TimeDimension.{TimeDimension}

take_past : (n k : ℕ) (xs ys : List ℕ) → n ≡ k + length xs → take n (xs ++ ys) ≡ xs ++ take k ys
take_past n k [] ys h = let same : n ≡ k = omega (arith, h) in ap (λ m. take m ys) same
take_past zero k (x ∷ xs) ys h = absurd (omega (arith, h))
take_past (suc n) k (x ∷ xs) ys h = ap (λ t. x ∷ t) (take_past n k xs ys (omega (arith, h)))

-- What the bytes of a chunk on disk are: the header, and what was written.
pub deref-contents : (k : Chunk) → IsChunk k → deref k ≡ header_bytes k.header ++ contents k
unfolding deref chunk_bytes
deref-contents k h =
    take_past (min (payload_len k) (capacity k) + 60) (payload_len k) (header_bytes k.header)
      k.payload (omega (arith, h.within, length-header_bytes k.header h.layout))

cleared : Chunk → Chunk
cleared k = record k { header = record k.header { length = to_le_bytes 4 0 } }

cleared-IsHeader : (k : Chunk) → IsHeader k.header → IsHeader (cleared k).header
unfolding cleared
cleared-IsHeader k h = record {
  magic_len = h.magic_len;
  version_len = h.version_len;
  length_len = length-to_le_bytes 4 0;
  start_len = h.start_len;
  end_len = h.end_len;
  pub_key_len = h.pub_key_len;
}

clear-cleared : (k : Chunk) → clear k ≡ some (cleared k)
unfolding cleared clear set_payload_len
clear-cleared k = ground arith

payload_len-cleared : (k : Chunk) → payload_len (cleared k) ≡ 0
unfolding cleared payload_len header_payload_len
payload_len-cleared k = from_le_bytes-to_le_bytes 4 0 (omega arith)

length-cleared :
    (k : Chunk) → IsHeader k.header → length (chunk_bytes (cleared k)) ≡ length (chunk_bytes k)
unfolding chunk_bytes cleared
length-cleared k h = omega (
  arith,
  length-append (header_bytes k.header) k.payload,
  length-append (header_bytes (cleared k).header) k.payload,
  length-header_bytes k.header h,
  length-header_bytes (cleared k).header (cleared-IsHeader k h),
)

module _ (c : Chrono) {F D : Type 0} (fs : FileSystem F D) (identifier : List ℕ)
    (rotation : TimeDimension) where
  -- The other thread finds a chunk in its side of the buffer.
  pub record WrittenOut (io : Io c F D) (memory : List ℕ) (k : Chunk) (after : Io c F D × List ℕ)
      : Type 0 where
    pub alpha : Side
    pub valid : IsBuffer alpha after.1
    pub empty : payload_len (bind (as_slice right after.1)) ≡ 0
    pub untouched : as_slice left after.1 ≡ as_slice left memory
    pub file :
        after.0
        ≡ write_to c fs identifier rotation
            (logfile_for c fs identifier rotation io.logfile k)
            (header_bytes k.header ++ contents k)
            io

  pub io_write_chunk-WrittenOut :
      (alpha : Side) (io : Io c F D) (memory : List ℕ) (k : Chunk)
      → IsBuffer alpha memory
      → IsChunk k
      → as_slice right memory ≡ chunk_bytes k
      → length (chunk_bytes k) ≡ side_len memory
      → 0 < payload_len k
      → WrittenOut io memory k (io_write_chunk c fs identifier rotation (io, memory))
  unfolding io_write_chunk
  io_write_chunk-WrittenOut alpha io memory k valid is_chunk at size pos =
      let layout = is_chunk.layout in
      let bound : bind (as_slice right memory) ≡ k = ap bind at ∙ bind-chunk_bytes k layout in
      let full : (payload_len k == 0) ≡ false = ground arith in
      let bytes = chunk_bytes (cleared k) in
      let w =
        write_slice-Isolated alpha right 0 bytes memory valid
          (omega (arith, size, length-cleared k layout)) in
      let here : as_slice right (write_slice right 0 bytes memory) ≡ bytes =
        w.here
        ∙ put_all bytes (as_slice right memory) (length-cleared k layout ∙ sym (ap length at)) in
      let after : WrittenOut io memory k (
        write_to c fs identifier rotation (logfile_for c fs identifier rotation io.logfile k)
            (deref k) io,
        write_slice right 0 bytes memory,
      ) =
        record {
          alpha = alpha;
          valid = w.valid;
          empty =
              ap (λ m. payload_len (bind m)) here
              ∙ ap payload_len (bind-chunk_bytes (cleared k) (cleared-IsHeader k layout))
              ∙ payload_len-cleared k;
          untouched = w.there;
          file =
              ap
                (λ b.
                  write_to c fs identifier rotation
                    (logfile_for c fs identifier rotation io.logfile k) b io)
                (deref-contents k is_chunk);
        } in
      rw (bound, full, clear-cleared k) after
