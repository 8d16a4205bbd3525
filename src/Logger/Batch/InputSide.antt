-- ===== src/Logger/Batch/InputSide.antt =====
-- The input side of the double buffer, and the chunk that it holds.
use pinenut.Prelude.{ℕ, ◌+◌, ◌-◌, ◌/◌, ◌≡◌, sym, ap, ◌∙◌, arith, List, length, length-append}
use pinenut.Common.Memory.{length-put}
use pinenut.Chunk.{Chunk, bind, chunk_bytes, header_bytes, capacity}
use pinenut.Chunk.Layout.{IsHeader, length-header_bytes, bind-chunk_bytes}
use pinenut.Buffer.{Side, left, right, as_slice, write_slice, side_len, side_offset}
use pinenut.Buffer.Sides.{IsBuffer}
use pinenut.Buffer.Writes.{write_slice-Isolated}
use pinenut.Logger.Rotation.{put_all, length-as_slice}

-- A buffer whose input side is a chunk.
pub record Input (alpha : Side) (k : Chunk) (memory : List ℕ) : Type 0 where
  pub valid : IsBuffer alpha memory
  pub layout : IsHeader k.header
  pub input : as_slice left memory ≡ chunk_bytes k

pub Input-bind :
    (alpha : Side) (k : Chunk) (memory : List ℕ)
    → Input alpha k memory
    → bind (as_slice left memory) ≡ k
Input-bind alpha k memory h = ap bind h.input ∙ bind-chunk_bytes k h.layout

-- It fills that side.
pub Input-len :
    (alpha : Side) (k : Chunk) (memory : List ℕ)
    → Input alpha k memory
    → length (chunk_bytes k) ≡ side_len memory
Input-len alpha k memory h = ap length (sym h.input) ∙ length-as_slice alpha left memory h.valid

pub length-chunk_bytes : (k : Chunk) → IsHeader k.header → length (chunk_bytes k) ≡ 60 + capacity k
unfolding chunk_bytes
length-chunk_bytes k h =
    omega (arith, length-append (header_bytes k.header) k.payload, length-header_bytes k.header h)

-- What was done to the chunk is put back; the other side stays.
pub record PutBack (alpha : Side) (k : Chunk) (before after : List ℕ) : Type 0 where
  pub holds : Input alpha k after
  pub other : as_slice right after ≡ as_slice right before
  pub same_len : side_len after ≡ side_len before

pub write_slice-PutBack_fills :
    (alpha : Side) (k : Chunk) (memory : List ℕ)
    → IsBuffer alpha memory
    → IsHeader k.header
    → 60 + capacity k ≡ side_len memory
    → PutBack alpha k memory (write_slice left 0 (chunk_bytes k) memory)
unfolding write_slice
write_slice-PutBack_fills alpha k memory valid layout fills =
    let size : length (chunk_bytes k) ≡ side_len memory =
      omega (arith, length-chunk_bytes k layout, fills) in
    let w = write_slice-Isolated alpha left 0 (chunk_bytes k) memory valid (omega (arith, size)) in
    record {
      holds = record {
        valid = w.valid;
        layout = layout;
        input =
            w.here
            ∙ put_all (chunk_bytes k) (as_slice left memory)
                (size ∙ sym (length-as_slice alpha left memory valid));
      };
      other = w.there;
      same_len =
          ap (λ n. (n - 8) / 2) (length-put (side_offset left memory + 0) (chunk_bytes k) memory);
    }

pub Input-fills :
    (alpha : Side) (k : Chunk) (memory : List ℕ)
    → Input alpha k memory
    → 60 + capacity k ≡ side_len memory
Input-fills alpha k memory h = sym (length-chunk_bytes k h.layout) ∙ Input-len alpha k memory h

pub write_slice-PutBack :
    (alpha : Side) (k k' : Chunk) (memory : List ℕ)
    → Input alpha k memory
    → IsHeader k'.header
    → capacity k' ≡ capacity k
    → PutBack alpha k' memory (write_slice left 0 (chunk_bytes k') memory)
write_slice-PutBack alpha k k' memory h layout same =
    write_slice-PutBack_fills alpha k' memory h.valid layout
      (omega (arith, Input-fills alpha k memory h, same))
