-- ===== src/Buffer/Sides.antt =====
-- The two sides share nothing, and a switch swaps them.
use pinenut.Prelude.{
  ℕ, ◌+◌, ◌-◌, ◌/◌, ◌≤◌, ◌≡◌, refl, sym, ap, ap₂, ◌∙◌, arith, List, length, true, false, bytes_eq,
  bytes_eq→eq, bytes_eq_refl, Bool-cases, ◌⊎◌, inl, inr, some,
}
use pinenut.Common.Memory.{
  slice, put, length-put, slice-put, slice-put_before, slice-put_after, put-put, put_same,
}
use pinenut.Common.LittleEndian.{to_le_bytes, from_le_bytes, length-to_le_bytes}
use pinenut.Buffer.{
  Side, left, right, raw, try_from, not_side, side_or_left, buffer_header_len, buffer_magic,
  header_magic, alpha_side, validate_buffer, switch, side_len, side_offset, as_slice,
}

-- A memory with the header of a buffer, of which `alpha` comes first.
pub record IsBuffer (alpha : Side) (memory : List ℕ) : Type 0 where
  pub long : buffer_header_len ≤ length memory
  pub magic : from_le_bytes (header_magic memory) ≡ buffer_magic
  pub side : alpha_side memory ≡ raw alpha

pub length-raw : (side : Side) → length (raw side) ≡ 4
unfolding raw
length-raw left = length-to_le_bytes 4 0xABC
length-raw right = length-to_le_bytes 4 0xDEF

-- Which memories `validate_buffer` accepts.
pub IsBuffer-of_validate :
    (memory : List ℕ)
    → buffer_header_len ≤ length memory
    → validate_buffer memory ≡ true
    → (alpha : Side) × IsBuffer alpha memory
unfolding validate_buffer
IsBuffer-of_validate memory h v = elim (Bool-cases (bytes_eq (raw left) (alpha_side memory))) [
  | inl l ↦ (
    left,
    record {
      long = h;
      magic = ground (arith, v);
      side = sym (bytes_eq→eq (raw left) (alpha_side memory) l);
    },
  )
  | inr n ↦ (
    right,
    record {
      long = h;
      magic = ground (arith, v);
      side = sym (bytes_eq→eq (raw right) (alpha_side memory) (ground (arith, v, n)));
    },
  )
]

try_from-raw : (side : Side) → try_from (raw side) ≡ some side
unfolding try_from raw to_le_bytes
try_from-raw left = refl
try_from-raw right = refl

pub not-not_side : (side : Side) → not_side (not_side side) ≡ side
not-not_side left = refl
not-not_side right = refl

pub switch-put :
    (alpha : Side) (memory : List ℕ)
    → IsBuffer alpha memory
    → switch memory ≡ put 4 (raw (not_side alpha)) memory
unfolding switch
switch-put alpha memory h =
    ap (λ o. put 4 (raw (not_side (side_or_left o))) memory)
      (ap try_from h.side ∙ try_from-raw alpha)

switch-IsBuffer :
    (alpha : Side) (memory : List ℕ)
    → IsBuffer alpha memory
    → IsBuffer (not_side alpha) (switch memory)
switch-IsBuffer alpha memory h =
    let r = raw (not_side alpha) in
    let size = length-raw (not_side alpha) in
    let e = switch-put alpha memory h in
    record {
      long = omega (arith, ap length e, length-put 4 r memory, h.long);
      magic =
          ap (λ m. from_le_bytes (header_magic m)) e
          ∙ ap from_le_bytes (slice-put_before 0 4 4 r memory (omega arith))
          ∙ h.magic;
      side =
          ap alpha_side e
          ∙ ap (λ n. slice 4 n (put 4 r memory)) (sym size)
          ∙ slice-put 4 r memory (omega (arith, size, h.long));
    }

-- Where a side is, by which is first.
pub offset_alpha :
    (alpha : Side) (memory : List ℕ) → IsBuffer alpha memory → side_offset alpha memory ≡ 8
unfolding side_offset
offset_alpha alpha memory h = rw (h.side, bytes_eq_refl (raw alpha)) refl

raw_differs : (side : Side) → bytes_eq (raw side) (raw (not_side side)) ≡ false
unfolding raw to_le_bytes
raw_differs left = refl
raw_differs right = refl

pub offset_beta :
    (alpha : Side) (memory : List ℕ)
    → IsBuffer alpha memory
    → side_offset (not_side alpha) memory ≡ 8 + side_len memory
unfolding side_offset
offset_beta alpha memory h = rw (h.side, raw_differs alpha) refl

pub Side-cases : (alpha side : Side) → (side ≡ alpha) ⊎ (side ≡ not_side alpha)
Side-cases left left = inl refl
Side-cases left right = inr refl
Side-cases right left = inr refl
Side-cases right right = inl refl

-- The slices of the two sides, the first and the second half.
pub slice_alpha :
    (alpha : Side) (memory : List ℕ)
    → IsBuffer alpha memory
    → as_slice alpha memory ≡ slice 8 (side_len memory) memory
unfolding as_slice
slice_alpha alpha memory h =
    ap (λ o. slice o (side_len memory) memory) (offset_alpha alpha memory h)

pub slice_beta :
    (alpha : Side) (memory : List ℕ)
    → IsBuffer alpha memory
    → as_slice (not_side alpha) memory ≡ slice (8 + side_len memory) (side_len memory) memory
unfolding as_slice
slice_beta alpha memory h = ap (λ o. slice o (side_len memory) memory) (offset_beta alpha memory h)

-- A switch keeps what lies behind the header.
slice-switch :
    (alpha : Side) (memory : List ℕ) (offset : ℕ)
    → IsBuffer alpha memory
    → 8 ≤ offset
    → slice offset (side_len (switch memory)) (switch memory)
      ≡ slice offset (side_len memory) memory
slice-switch alpha memory offset h far =
    let r = raw (not_side alpha) in
    let e = switch-put alpha memory h in
    ap (λ m. slice offset (side_len m) m) e
    ∙ ap (λ n. slice offset ((n - 8) / 2) (put 4 r memory)) (length-put 4 r memory)
    ∙ slice-put_after offset (side_len memory) 4 r memory
        (omega (arith, length-raw (not_side alpha)))

as_slice-switch :
    (alpha side : Side) (memory : List ℕ)
    → IsBuffer alpha memory
    → as_slice side (switch memory) ≡ as_slice (not_side side) memory
as_slice-switch alpha side memory h =
    let after = switch-IsBuffer alpha memory h in
    let size : side_len (switch memory) ≡ side_len memory =
      ap side_len (switch-put alpha memory h)
      ∙ ap (λ n. (n - 8) / 2) (length-put 4 (raw (not_side alpha)) memory) in
    elim (Side-cases alpha side) [
      | inl e ↦
          ap (λ s. as_slice s (switch memory)) (e ∙ sym (not-not_side alpha))
          ∙ slice_beta (not_side alpha) (switch memory) after
          ∙ ap (λ n. slice (8 + n) (side_len (switch memory)) (switch memory)) size
          ∙ slice-switch alpha memory (8 + side_len memory) h (omega arith)
          ∙ sym (slice_beta alpha memory h)
          ∙ ap (λ s. as_slice (not_side s) memory) (sym e)
      | inr e ↦
          ap (λ s. as_slice s (switch memory)) e
          ∙ slice_alpha (not_side alpha) (switch memory) after
          ∙ slice-switch alpha memory 8 h (omega arith)
          ∙ sym (slice_alpha alpha memory h)
          ∙ ap (λ s. as_slice s memory) (sym (not-not_side alpha) ∙ ap not_side (sym e))
    ]

-- What a switch does to a buffer.
pub record Switched (alpha : Side) (memory : List ℕ) : Type 0 where
  pub valid : IsBuffer (not_side alpha) (switch memory)
  pub swaps : (side : Side) → as_slice side (switch memory) ≡ as_slice (not_side side) memory
  pub back : switch (switch memory) ≡ memory

switch-back :
    (alpha : Side) (memory : List ℕ) → IsBuffer alpha memory → switch (switch memory) ≡ memory
switch-back alpha memory h =
    let r = raw (not_side alpha) in
    let both : length (raw alpha) ≡ length r =
      omega (arith, length-raw alpha, length-raw (not_side alpha)) in
    switch-put (not_side alpha) (switch memory) (switch-IsBuffer alpha memory h)
    ∙ ap₂ (λ s m. put 4 (raw s) m) (not-not_side alpha) (switch-put alpha memory h)
    ∙ put-put 4 (raw alpha) r memory both
    ∙ put_same 4 (raw alpha) memory (ap (λ n. slice 4 n memory) (length-raw alpha) ∙ h.side)

-- Switching a valid buffer gives a valid buffer in which each side has the slice that the other had,
-- and switching it again gives back the whole memory.
pub switch-Switched :
    (alpha : Side) (memory : List ℕ) → IsBuffer alpha memory → Switched alpha memory
switch-Switched alpha memory h = record {
  valid = switch-IsBuffer alpha memory h;
  swaps = λ side. as_slice-switch alpha side memory h;
  back = switch-back alpha memory h;
}
