-- ===== src/Logger/Rotation.antt =====
-- What a rotation hands to the thread that writes files.
use pinenut.Prelude.{
  ℕ, ◌+◌, ◌-◌, ◌/◌, ◌<◌, ◌≡◌, refl, sym, ap, subst, ◌∙◌, arith, List, [], ◌∷◌, ◌++◌, length,
  length-take, drop, length-drop, Bool, lt→ltb, inl, inr, Fault, min,
}
use pinenut.Chrono.{Chrono}
use pinenut.Common.BytesBuf.{BytesBuf}
use pinenut.Common.Memory.{slice, put, length-put}
use pinenut.Encrypt.{Aes}
use pinenut.Chunk.{Chunk, bind, chunk_bytes, payload_len}
use pinenut.Buffer.{
  Side, left, right, raw, not_side, switch, as_slice, write_slice, side_len, side_offset,
}
use pinenut.Buffer.Sides.{
  IsBuffer, switch-Switched, Side-cases, slice_alpha, slice_beta, switch-put,
}
use pinenut.Buffer.Writes.{write_slice-Isolated}
use pinenut.Logger.{
  Core, write_chunk, Compress, LoggerError, hand_over, switched, unbind, bind_input,
}

pub put_all : (bytes memory : List ℕ) → length bytes ≡ length memory → put 0 bytes memory ≡ bytes
put_all [] [] h = refl
put_all [] (m ∷ memory) h = absurd (omega arith)
put_all (b ∷ bytes) [] h = absurd (omega arith)
put_all (b ∷ bytes) (m ∷ memory) h = ap (λ t. b ∷ t) (put_all bytes memory (omega arith))

length-slice :
    (offset n : ℕ) (memory : List ℕ)
    → length (slice offset n memory) ≡ min n (length memory - offset)
length-slice offset n memory =
    omega (arith, length-take n (drop offset memory), length-drop offset memory)

-- A side has the length that the code computes for both.
pub length-as_slice :
    (alpha side : Side) (memory : List ℕ)
    → IsBuffer alpha memory
    → length (as_slice side memory) ≡ side_len memory
length-as_slice alpha side memory h = elim (Side-cases alpha side) [
  | inl e ↦
      let at = ap length (ap (λ s. as_slice s memory) e ∙ slice_alpha alpha memory h) in
      omega (arith, at, length-slice 8 (side_len memory) memory, h.long)
  | inr e ↦
      let at = ap length (ap (λ s. as_slice s memory) e ∙ slice_beta alpha memory h) in
      omega (arith, at, length-slice (8 + side_len memory) (side_len memory) memory, h.long)
]

len_after :
    (alpha : Side) (bytes memory : List ℕ)
    → IsBuffer alpha (write_slice left 0 bytes memory)
    → side_len (switch (write_slice left 0 bytes memory)) ≡ side_len memory
unfolding write_slice
len_after alpha bytes memory h =
    let written = write_slice left 0 bytes memory in
    ap side_len (switch-put alpha written h)
    ∙ ap (λ n. (n - 8) / 2) (length-put 4 (raw (not_side alpha)) written)
    ∙ ap (λ n. (n - 8) / 2) (length-put (side_offset left memory + 0) bytes memory)

module _ (c : Chrono) (aes : Aes) (has_key : Bool) {Z : Type 0}
    (compress_op : Compress Z (BytesBuf × Chunk) (Fault LoggerError)) where
  -- The state after a chunk is handed over, and the chunk that is bound then.
  pub record HandedOver (core : Core Z) (chunk : Chunk) (after : Core Z × Chunk) : Type 0 where
    pub alpha : Side
    pub valid : IsBuffer alpha after.0.memory
    pub same_len : side_len after.0.memory ≡ side_len core.memory
    pub output : as_slice right after.0.memory ≡ chunk_bytes chunk
    pub input : as_slice left after.0.memory ≡ as_slice right core.memory
    pub bound : after.1 ≡ bind (as_slice right core.memory)
    pub sent : after.0.events ≡ core.events ++ (write_chunk ∷ [])

  pub hand_over-full :
      (core : Core Z) (chunk : Chunk)
      → 0 < payload_len chunk
      → hand_over c aes has_key compress_op (core, chunk)
        ≡ switched c aes has_key compress_op (unbind c aes has_key compress_op (core, chunk))
  unfolding hand_over
  hand_over-full core chunk h = rw (lt→ltb 0 (payload_len chunk) h) refl

  -- Handing over a chunk that is not empty, and that fills the input side of a valid buffer, puts
  -- exactly its bytes on the side of the thread that writes files, sends that thread one event, and
  -- binds the input to the chunk that was on the other side.
  pub hand_over-HandedOver :
      (alpha : Side) (core : Core Z) (chunk : Chunk)
      → IsBuffer alpha core.memory
      → length (chunk_bytes chunk) ≡ side_len core.memory
      → 0 < payload_len chunk
      → HandedOver core chunk (hand_over c aes has_key compress_op (core, chunk))
  unfolding switched unbind bind_input
  hand_over-HandedOver alpha core chunk h size pos =
      let m = core.memory in
      let bytes = chunk_bytes chunk in
      let w = write_slice-Isolated alpha left 0 bytes m h (omega (arith, size)) in
      let s = switch-Switched alpha (write_slice left 0 bytes m) w.valid in
      subst (HandedOver core chunk) (sym (hand_over-full core chunk pos)) (record {
        alpha = not_side alpha;
        valid = s.valid;
        same_len = len_after alpha bytes m w.valid;
        output =
            s.swaps right
            ∙ w.here
            ∙ put_all bytes (as_slice left m) (size ∙ sym (length-as_slice alpha left m h));
        input = s.swaps left ∙ w.there;
        bound = ap bind (s.swaps left ∙ w.there);
        sent = refl;
      })
