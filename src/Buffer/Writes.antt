-- ===== src/Buffer/Writes.antt =====
-- What is written to one side of a buffer is not seen on the other, and `initialize` makes any
-- memory a buffer.
use pinenut.Prelude.{
  ℕ, ◌+◌, ◌-◌, ◌/◌, ◌≤◌, ◌≡◌, refl, sym, ap, subst, ◌∙◌, arith, List, length, true, false,
  Bool-cases, inl, inr,
}
use pinenut.Common.Memory.{
  slice, put, length-put, slice-put, slice-put_before, slice-put_after, slice-put_within,
  slice-take,
}
use pinenut.Common.LittleEndian.{to_le_bytes, from_le_bytes}
use pinenut.Buffer.{
  Side, left, right, raw, not_side, buffer_header_len, default_header, validate_buffer,
  initialize_buffer, side_len, as_slice, write_slice,
}
use pinenut.Buffer.Sides.{
  IsBuffer, IsBuffer-of_validate, Side-cases, slice_alpha, slice_beta, offset_alpha, offset_beta,
  not-not_side,
}

-- What a write to one side does, when it leaves the memory `after`.
pub record Isolated (alpha side : Side) (at : ℕ) (bytes memory after : List ℕ) : Type 0 where
  pub valid : IsBuffer alpha after
  pub here : as_slice side after ≡ put at bytes (as_slice side memory)
  pub there : as_slice (not_side side) after ≡ as_slice (not_side side) memory

module _ (alpha : Side) (memory : List ℕ) (h : IsBuffer alpha memory) where
  -- A write behind the header.
  put-IsBuffer :
      (offset : ℕ) (bytes : List ℕ) → 8 ≤ offset → IsBuffer alpha (put offset bytes memory)
  put-IsBuffer offset bytes far = record {
    long = omega (arith, length-put offset bytes memory, h.long);
    magic = ap from_le_bytes (slice-put_before 0 4 offset bytes memory (omega arith)) ∙ h.magic;
    side = slice-put_before 4 4 offset bytes memory (omega arith) ∙ h.side;
  }

  same_len : (offset : ℕ) (bytes : List ℕ) → side_len (put offset bytes memory) ≡ side_len memory
  same_len offset bytes = ap (λ n. (n - 8) / 2) (length-put offset bytes memory)

  alpha_write :
      (at : ℕ) (bytes : List ℕ)
      → at + length bytes ≤ side_len memory
      → Isolated alpha alpha at bytes memory (write_slice alpha at bytes memory)
  unfolding write_slice
  alpha_write at bytes fits =
      let n = side_len memory in
      let e : write_slice alpha at bytes memory ≡ put (8 + at) bytes memory =
        ap (λ o. put (o + at) bytes memory) (offset_alpha alpha memory h) in
      let valid = put-IsBuffer (8 + at) bytes (omega arith) in
      let size = same_len (8 + at) bytes in
      subst (Isolated alpha alpha at bytes memory) (sym e) (record {
        valid = valid;
        here =
            slice_alpha alpha (put (8 + at) bytes memory) valid
            ∙ ap (λ n. slice 8 n (put (8 + at) bytes memory)) size
            ∙ slice-put_within 8 n at bytes memory fits
            ∙ ap (put at bytes) (sym (slice_alpha alpha memory h));
        there =
            slice_beta alpha (put (8 + at) bytes memory) valid
            ∙ ap (λ n. slice (8 + n) n (put (8 + at) bytes memory)) size
            ∙ slice-put_after (8 + n) n (8 + at) bytes memory (omega arith)
            ∙ sym (slice_beta alpha memory h);
      })

  beta_write :
      (at : ℕ) (bytes : List ℕ)
      → at + length bytes ≤ side_len memory
      → Isolated alpha
          (not_side alpha)
          at
          bytes
          memory
          (write_slice (not_side alpha) at bytes memory)
  unfolding write_slice
  beta_write at bytes fits =
      let n = side_len memory in
      let start = 8 + n in
      let e : write_slice (not_side alpha) at bytes memory ≡ put (start + at) bytes memory =
        ap (λ o. put (o + at) bytes memory) (offset_beta alpha memory h) in
      let valid = put-IsBuffer (start + at) bytes (omega arith) in
      let size = same_len (start + at) bytes in
      subst (Isolated alpha (not_side alpha) at bytes memory) (sym e) (record {
        valid = valid;
        here =
            slice_beta alpha (put (start + at) bytes memory) valid
            ∙ ap (λ n. slice (8 + n) n (put (start + at) bytes memory)) size
            ∙ slice-put_within start n at bytes memory fits
            ∙ ap (put at bytes) (sym (slice_beta alpha memory h));
        there =
            ap (λ s. as_slice s (put (start + at) bytes memory)) (not-not_side alpha)
            ∙ slice_alpha alpha (put (start + at) bytes memory) valid
            ∙ ap (λ n. slice 8 n (put (start + at) bytes memory)) size
            ∙ slice-put_before 8 n (start + at) bytes memory (omega arith)
            ∙ sym (slice_alpha alpha memory h)
            ∙ ap (λ s. as_slice s memory) (sym (not-not_side alpha));
      })

-- A write within a side of a valid buffer is read back there, on the other side nothing changes, and
-- the buffer stays valid with the same side first.
pub write_slice-Isolated :
    (alpha side : Side) (at : ℕ) (bytes memory : List ℕ)
    → IsBuffer alpha memory
    → at + length bytes ≤ side_len memory
    → Isolated alpha side at bytes memory (write_slice side at bytes memory)
write_slice-Isolated alpha side at bytes memory h fits = elim (Side-cases alpha side) [
  | inl e ↦
      subst (λ s. Isolated alpha s at bytes memory (write_slice s at bytes memory)) (sym e)
        (alpha_write alpha memory h at bytes fits)
  | inr e ↦
      subst (λ s. Isolated alpha s at bytes memory (write_slice s at bytes memory)) (sym e)
        (beta_write alpha memory h at bytes fits)
]

-- What `initialize` makes of a memory: the one that was valid, or one in which left comes first and
-- that is the same behind the header.
pub record Initialized (memory : List ℕ) : Type 0 where
  pub alpha : Side
  pub valid : IsBuffer alpha (initialize_buffer memory)
  pub kept : (n : ℕ) → slice 8 n (initialize_buffer memory) ≡ slice 8 n memory
  pub again : initialize_buffer (initialize_buffer memory) ≡ initialize_buffer memory

pub initialize_valid :
    (memory : List ℕ) → validate_buffer memory ≡ true → initialize_buffer memory ≡ memory
unfolding initialize_buffer
initialize_valid memory v = rw v refl

initialize_invalid :
    (memory : List ℕ)
    → validate_buffer memory ≡ false
    → initialize_buffer memory ≡ put 0 default_header memory
unfolding initialize_buffer
initialize_invalid memory v = rw v refl

default_len : length default_header ≡ 8
unfolding default_header raw to_le_bytes
default_len = refl

pub length-initialize_buffer : (memory : List ℕ) → length (initialize_buffer memory) ≡ length memory
length-initialize_buffer memory = elim (Bool-cases (validate_buffer memory)) [
  | inl v ↦ ap length (initialize_valid memory v)
  | inr v ↦ ap length (initialize_invalid memory v) ∙ length-put 0 default_header memory
]

default_IsBuffer :
    (memory : List ℕ) → 8 ≤ length memory → IsBuffer left (put 0 default_header memory)
unfolding default_header raw to_le_bytes from_le_bytes
default_IsBuffer memory h =
    let whole : slice 0 8 (put 0 default_header memory) ≡ default_header =
      slice-put 0 default_header memory h in
    record {
      long = omega (arith, length-put 0 default_header memory, h);
      magic = ap from_le_bytes (
          sym (slice-take 0 4 8 (put 0 default_header memory) (omega arith))
          ∙ ap (slice 0 4) whole);
      side =
          sym (slice-take 4 4 8 (put 0 default_header memory) (omega arith)) ∙ ap (slice 4 4) whole;
    }

pub validate-IsBuffer :
    (alpha : Side) (memory : List ℕ) → IsBuffer alpha memory → validate_buffer memory ≡ true
unfolding validate_buffer raw to_le_bytes
validate-IsBuffer left memory h = rw (h.magic, h.side) refl
validate-IsBuffer right memory h = rw (h.magic, h.side) refl

-- Whatever is in a memory of at least 8 bytes, `initialize` makes it a valid buffer, keeps every byte
-- behind the header, and does nothing to a buffer that is initialized already.
pub initialize-Initialized :
    (memory : List ℕ) → buffer_header_len ≤ length memory → Initialized memory
initialize-Initialized memory h = elim (Bool-cases (validate_buffer memory)) [
  | inl v ↦
      let (alpha, valid) = IsBuffer-of_validate memory h v in
      let e = initialize_valid memory v in
      record {
        alpha = alpha;
        valid = subst (IsBuffer alpha) (sym e) valid;
        kept = λ n. ap (slice 8 n) e;
        again = ap initialize_buffer e;
      }
  | inr v ↦
      let e = initialize_invalid memory v in
      let valid = default_IsBuffer memory h in
      record {
        alpha = left;
        valid = subst (IsBuffer left) (sym e) valid;
        kept = λ n.
            ap (slice 8 n) e
            ∙ slice-put_after 8 n 0 default_header memory (omega (arith, default_len));
        again =
            ap initialize_buffer e
            ∙ initialize_valid (put 0 default_header memory) (validate-IsBuffer left _ valid)
            ∙ sym e;
      }
]
