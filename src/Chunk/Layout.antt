-- ===== src/Chunk/Layout.antt =====
-- The header's fields lie in memory one behind the other, so that the header and the chunk are read
-- back from their bytes.
use pinenut.Prelude.{
  ℕ, zero, suc, ◌+◌, ◌≡◌, refl, ap, ◌∙◌, arith, List, [], ◌∷◌, ◌++◌, append_assoc, length,
  length-append, take, drop, take-append, drop-append, Bool, true, false,
}
use pinenut.Common.LittleEndian.{from_le_bytes}
use pinenut.Common.Memory.{slice}
use pinenut.Chunk.{Header, Chunk, header, header_bytes, bind, chunk_bytes, bool_byte, byte_bool}

-- The lengths of the arrays.
pub record IsHeader (h : Header) : Type 0 where
  pub magic_len : length h.magic ≡ 4
  pub version_len : length h.version ≡ 2
  pub length_len : length h.length ≡ 4
  pub start_len : length h.start ≡ 8
  pub end_len : length h.end_ ≡ 8
  pub pub_key_len : length h.pub_key ≡ 33

module _ {ℓ} {A : Type ℓ} where
  drop-skip : (j n : ℕ) (xs ys : List A) → length xs + n ≡ j → drop j (xs ++ ys) ≡ drop n ys
  drop-skip j n [] ys h = let same : j ≡ n = omega arith in ap (λ m. drop m ys) same
  drop-skip zero n (x ∷ xs) ys h = absurd (omega arith)
  drop-skip (suc j) n (x ∷ xs) ys h = drop-skip j n xs ys (omega arith)

  -- A slice behind the first part, and one that is the first part.
  slice-skip :
      (j n len : ℕ) (xs ys : List A) → length xs + n ≡ j → slice j len (xs ++ ys) ≡ slice n len ys
  slice-skip j n len xs ys h = ap (take len) (drop-skip j n xs ys h)

  slice-first : (len : ℕ) (xs ys : List A) → length xs ≡ len → slice 0 len (xs ++ ys) ≡ xs
  slice-first len xs ys h = take-append len xs ys h

pub length-header_bytes : (h : Header) → IsHeader h → length (header_bytes h) ≡ 60
unfolding header_bytes
length-header_bytes h w = omega (
  arith,
  w.magic_len,
  w.version_len,
  w.length_len,
  w.start_len,
  w.end_len,
  w.pub_key_len,
  length-append h.magic (
      h.version
      ++ (h.length ++ ((bool_byte h.writeback ∷ []) ++ (h.start ++ (h.end_ ++ h.pub_key))))),
  length-append h.version
      (h.length ++ ((bool_byte h.writeback ∷ []) ++ (h.start ++ (h.end_ ++ h.pub_key)))),
  length-append h.length ((bool_byte h.writeback ∷ []) ++ (h.start ++ (h.end_ ++ h.pub_key))),
  length-append h.start (h.end_ ++ h.pub_key),
  length-append h.end_ h.pub_key,
)

bool_round : (b : Bool) → byte_bool (bool_byte b ∷ []) ≡ b
unfolding from_le_bytes
bool_round true = refl
bool_round false = refl

-- The bytes of a header are read back as that header, whatever follows them.
pub header-bytes : (h : Header) (more : List ℕ) → IsHeader h → header (header_bytes h ++ more) ≡ h
unfolding header header_bytes
header-bytes h more w =
    let p7 = h.pub_key ++ more in
    let p6 = h.end_ ++ p7 in
    let p5 = h.start ++ p6 in
    let p4 = (bool_byte h.writeback ∷ []) ++ p5 in
    let p3 = h.length ++ p4 in
    let p2 = h.version ++ p3 in
    let flat : header_bytes h ++ more ≡ h.magic ++ p2 = simp append_assoc refl in
    let s1 =
      λ (j n len : ℕ) (e : 4 + n ≡ j). slice-skip j n len h.magic p2 (omega (arith, w.magic_len)) in
    let s2 = λ (j n len : ℕ) (e : 2 + n ≡ j).
      slice-skip j n len h.version p3 (omega (arith, w.version_len)) in
    let s3 = λ (j n len : ℕ) (e : 4 + n ≡ j).
      slice-skip j n len h.length p4 (omega (arith, w.length_len)) in
    let s4 = λ (j n len : ℕ) (e : 1 + n ≡ j).
      slice-skip j n len (bool_byte h.writeback ∷ []) p5 (omega arith) in
    let s5 =
      λ (j n len : ℕ) (e : 8 + n ≡ j). slice-skip j n len h.start p6 (omega (arith, w.start_len)) in
    let s6 =
      λ (j n len : ℕ) (e : 8 + n ≡ j). slice-skip j n len h.end_ p7 (omega (arith, w.end_len)) in
    ap header flat ∙ (λ i. record {
      magic = slice-first 4 h.magic p2 w.magic_len i;
      version = (s1 4 0 2 refl ∙ slice-first 2 h.version p3 w.version_len) i;
      length = (s1 6 2 4 refl ∙ s2 2 0 4 refl ∙ slice-first 4 h.length p4 w.length_len) i;
      writeback =
          (ap byte_bool (s1 10 6 1 refl ∙ s2 6 4 1 refl ∙ s3 4 0 1 refl) ∙ bool_round h.writeback)
            i;
      start =
          (s1 11 7 8 refl
              ∙ s2 7 5 8 refl
              ∙ s3 5 1 8 refl
              ∙ s4 1 0 8 refl
              ∙ slice-first 8 h.start p6 w.start_len)
            i;
      end_ =
          (s1 19 15 8 refl
              ∙ s2 15 13 8 refl
              ∙ s3 13 9 8 refl
              ∙ s4 9 8 8 refl
              ∙ s5 8 0 8 refl
              ∙ slice-first 8 h.end_ p7 w.end_len)
            i;
      pub_key =
          (s1 27 23 33 refl
              ∙ s2 23 21 33 refl
              ∙ s3 21 17 33 refl
              ∙ s4 17 16 33 refl
              ∙ s5 16 8 33 refl
              ∙ s6 8 0 33 refl
              ∙ slice-first 33 h.pub_key more w.pub_key_len)
            i;
    })

-- A chunk whose header's fields have their lengths is bound again from its memory, as when a process
-- maps the buffer that another left.
pub bind-chunk_bytes : (c : Chunk) → IsHeader c.header → bind (chunk_bytes c) ≡ c
unfolding bind chunk_bytes
bind-chunk_bytes c w = (λ i. record {
  header = header-bytes c.header c.payload w i;
  payload = drop-append 60 (header_bytes c.header) c.payload (length-header_bytes c.header w) i;
})
