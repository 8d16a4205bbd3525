-- ===== src/Common/Memory.antt =====
-- Memory as the list of its bytes: a slice of it, and bytes put into it at an offset, with what
-- each leaves of the other.
use pinenut.Prelude.{
  ℕ, zero, suc, ◌+◌, ◌≤◌, ◌≡◌, refl, ap, ◌∙◌, arith, List, [], ◌∷◌, length, take, drop,
}

module _ {ℓ} {A : Type ℓ} where
  abbrev pub slice : ℕ → ℕ → List A → List A
  slice offset len memory = take len (drop offset memory)

  -- What lies behind the end stays out.
  abbrev pub put : ℕ → List A → List A → List A
  put offset [] memory = memory
  put offset (b ∷ bytes) [] = []
  put zero (b ∷ bytes) (m ∷ memory) = b ∷ put zero bytes memory
  put (suc offset) (b ∷ bytes) (m ∷ memory) = m ∷ put offset (b ∷ bytes) memory

  pub length-put :
      (offset : ℕ) (bytes memory : List A) → length (put offset bytes memory) ≡ length memory
  length-put offset [] memory = refl
  length-put offset (b ∷ bytes) [] = refl
  length-put zero (b ∷ bytes) (m ∷ memory) = ap suc (length-put zero bytes memory)
  length-put (suc offset) (b ∷ bytes) (m ∷ memory) = ap suc (length-put offset (b ∷ bytes) memory)

  pub slice-put :
      (offset : ℕ) (bytes memory : List A)
      → offset + length bytes ≤ length memory
      → slice offset (length bytes) (put offset bytes memory) ≡ bytes
  slice-put offset [] memory h = refl
  slice-put offset (b ∷ bytes) [] h = absurd (omega arith)
  slice-put zero (b ∷ bytes) (m ∷ memory) h =
      ap (λ t. b ∷ t) (slice-put zero bytes memory (omega arith))
  slice-put (suc offset) (b ∷ bytes) (m ∷ memory) h =
      slice-put offset (b ∷ bytes) memory (omega arith)

  pub slice-put_before :
      (at len offset : ℕ) (bytes memory : List A)
      → at + len ≤ offset
      → slice at len (put offset bytes memory) ≡ slice at len memory
  slice-put_before at len offset [] memory h = refl
  slice-put_before at len offset (b ∷ bytes) [] h = refl
  slice-put_before zero zero offset (b ∷ bytes) (m ∷ memory) h = refl
  slice-put_before zero (suc len) zero (b ∷ bytes) (m ∷ memory) h = absurd (omega arith)
  slice-put_before zero (suc len) (suc offset) (b ∷ bytes) (m ∷ memory) h =
      ap (λ t. m ∷ t) (slice-put_before zero len offset (b ∷ bytes) memory (omega arith))
  slice-put_before (suc at) len zero (b ∷ bytes) (m ∷ memory) h = absurd (omega arith)
  slice-put_before (suc at) len (suc offset) (b ∷ bytes) (m ∷ memory) h =
      slice-put_before at len offset (b ∷ bytes) memory (omega arith)

  pub slice-put_after :
      (at len offset : ℕ) (bytes memory : List A)
      → offset + length bytes ≤ at
      → slice at len (put offset bytes memory) ≡ slice at len memory
  slice-put_after at len offset [] memory h = refl
  slice-put_after at len offset (b ∷ bytes) [] h = refl
  slice-put_after zero len zero (b ∷ bytes) (m ∷ memory) h = absurd (omega arith)
  slice-put_after (suc at) len zero (b ∷ bytes) (m ∷ memory) h =
      slice-put_after at len zero bytes memory (omega arith)
  slice-put_after zero len (suc offset) (b ∷ bytes) (m ∷ memory) h = absurd (omega arith)
  slice-put_after (suc at) len (suc offset) (b ∷ bytes) (m ∷ memory) h =
      slice-put_after at len offset (b ∷ bytes) memory (omega arith)

  pub put-put :
      (offset : ℕ) (xs ys memory : List A)
      → length xs ≡ length ys
      → put offset xs (put offset ys memory) ≡ put offset xs memory
  put-put offset [] [] memory h = refl
  put-put offset [] (y ∷ ys) memory h = absurd (omega arith)
  put-put offset (x ∷ xs) [] memory h = absurd (omega arith)
  put-put offset (x ∷ xs) (y ∷ ys) [] h = refl
  put-put zero (x ∷ xs) (y ∷ ys) (m ∷ memory) h =
      ap (λ t. x ∷ t) (put-put zero xs ys memory (omega arith))
  put-put (suc offset) (x ∷ xs) (y ∷ ys) (m ∷ memory) h =
      ap (λ t. m ∷ t) (put-put offset (x ∷ xs) (y ∷ ys) memory h)

  -- Putting back what is there.
  pub put_same :
      (offset : ℕ) (bytes memory : List A)
      → slice offset (length bytes) memory ≡ bytes
      → put offset bytes memory ≡ memory
  put_same offset [] memory h = refl
  put_same offset (b ∷ bytes) [] h = refl
  put_same zero (b ∷ bytes) (m ∷ memory) h =
      let head : m ≡ b = cc (h) in
      let tail : take (length bytes) memory ≡ bytes = cc (h) in
      rw (← head) (ap (λ t. m ∷ t) (put_same zero bytes memory tail))
  put_same (suc offset) (b ∷ bytes) (m ∷ memory) h =
      ap (λ t. m ∷ t) (put_same offset (b ∷ bytes) memory h)

  -- A part of memory that bytes are put into.
  drop-put :
      (at offset j : ℕ) (bytes memory : List A)
      → j ≡ offset + at
      → drop offset (put j bytes memory) ≡ put at bytes (drop offset memory)
  drop-put at zero j bytes memory h =
      let same : j ≡ at = omega arith in ap (λ n. put n bytes memory) same
  drop-put at (suc offset) j [] memory h = refl
  drop-put at (suc offset) j (b ∷ bytes) [] h = refl
  drop-put at (suc offset) zero (b ∷ bytes) (m ∷ memory) h = absurd (omega arith)
  drop-put at (suc offset) (suc j) (b ∷ bytes) (m ∷ memory) h =
      drop-put at offset j (b ∷ bytes) memory (omega arith)

  take-put_within :
      (n at : ℕ) (bytes memory : List A)
      → at + length bytes ≤ n
      → take n (put at bytes memory) ≡ put at bytes (take n memory)
  take-put_within n at [] memory h = refl
  take-put_within zero at (b ∷ bytes) memory h = absurd (omega arith)
  take-put_within (suc n) at (b ∷ bytes) [] h = refl
  take-put_within (suc n) zero (b ∷ bytes) (m ∷ memory) h =
      ap (λ t. b ∷ t) (take-put_within n zero bytes memory (omega arith))
  take-put_within (suc n) (suc at) (b ∷ bytes) (m ∷ memory) h =
      ap (λ t. m ∷ t) (take-put_within n at (b ∷ bytes) memory (omega arith))

  pub slice-put_within :
      (offset n at : ℕ) (bytes memory : List A)
      → at + length bytes ≤ n
      → slice offset n (put (offset + at) bytes memory) ≡ put at bytes (slice offset n memory)
  slice-put_within offset n at bytes memory h =
      ap (take n) (drop-put at offset (offset + at) bytes memory refl)
      ∙ take-put_within n at bytes (drop offset memory) h

  -- A slice of the first bytes.
  pub slice-take :
      (offset n k : ℕ) (memory : List A)
      → offset + n ≤ k
      → slice offset n (take k memory) ≡ slice offset n memory
  slice-take zero zero k memory h = refl
  slice-take zero (suc n) zero memory h = absurd (omega arith)
  slice-take zero (suc n) (suc k) [] h = refl
  slice-take zero (suc n) (suc k) (m ∷ memory) h =
      ap (λ t. m ∷ t) (slice-take zero n k memory (omega arith))
  slice-take (suc offset) n zero memory h = absurd (omega arith)
  slice-take (suc offset) n (suc k) [] h = refl
  slice-take (suc offset) n (suc k) (m ∷ memory) h = slice-take offset n k memory (omega arith)
