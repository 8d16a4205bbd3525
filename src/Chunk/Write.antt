-- ===== src/Chunk/Write.antt =====
-- A chunk is a log of bounded length: `write` appends to it or refuses.
pub mod Initialize
use pinenut.Prelude.{
  ℕ, zero, suc, ◌+◌, ◌≤◌, ◌<◌, ◌^◌, ◌≡◌, refl, sym, ap, subst, ◌∙◌, arith, List, [], ◌∷◌, ◌++◌,
  append-nil, length, length-take, take, true, false, Bool-cases, ltb, ltb→lt, inl, inr,
  if◌then◌else◌, Option, none, some, Result, ok, err,
}
use pinenut.Chrono.{Chrono, IsChrono, unwrap_or_default}
use pinenut.Common.Memory.{put, length-put}
use pinenut.Common.LittleEndian.{
  to_le_bytes, from_le_bytes, length-to_le_bytes, from_le_bytes-to_le_bytes, i64_from_le_bytes-to,
  length-i64_to_le_bytes,
}
use pinenut.Chunk.{
  Chunk, Overflow, overflow, capacity, payload_len, validate, validate_header, header_version,
  header_payload_len, initialize, write, set_payload_len, start_datetime, end_datetime, chunk_magic,
  format_version,
}
use pinenut.Chunk.Layout.{IsHeader}

-- What was written.
abbrev pub contents : Chunk → List ℕ
contents c = take (payload_len c) c.payload

pub record IsChunk (c : Chunk) : Type 0 where
  pub layout : IsHeader c.header
  pub magic : from_le_bytes c.header.magic ≡ chunk_magic
  pub within : payload_len c ≤ capacity c
  pub u32 : capacity c < 2 ^ 32

-- The specification: a log that holds `cap` bytes at most.
abbrev pub append : ℕ → List ℕ → List ℕ → Result Overflow (Unit {0}) × List ℕ
append cap bytes log =
    if ltb cap (length log + length bytes) then (err overflow, log) else (ok tt, log ++ bytes)

pub validate-IsChunk : (c : Chunk) → IsChunk c → validate c ≡ true
unfolding validate validate_header
validate-IsChunk c h = let m = h.magic in let w = h.within in ground (arith, m, w)

pub length-contents : (c : Chunk) → payload_len c ≤ capacity c → length (contents c) ≡ payload_len c
length-contents c h = omega (arith, length-take (payload_len c) c.payload)

-- The first bytes after a write behind them.
take-put :
    (n : ℕ) (bytes memory : List ℕ)
    → n + length bytes ≤ length memory
    → take (n + length bytes) (put n bytes memory) ≡ take n memory ++ bytes
take-put zero [] memory h = refl
take-put zero (b ∷ bytes) [] h = absurd (omega arith)
take-put zero (b ∷ bytes) (m ∷ memory) h =
    let e : 0 + suc (length bytes) ≡ suc (0 + length bytes) = omega arith in
    ap (λ k. take k (b ∷ put 0 bytes memory)) e
    ∙ ap (λ t. b ∷ t) (take-put zero bytes memory (omega arith))
take-put (suc n) [] [] h = absurd (omega arith)
take-put (suc n) (b ∷ bytes) [] h = absurd (omega arith)
take-put (suc n) [] (m ∷ memory) h =
    let e : suc n + 0 ≡ suc n = omega arith in ap (λ k. take k (m ∷ memory)) e ∙ sym (append-nil _)
take-put (suc n) (b ∷ bytes) (m ∷ memory) h =
    let e : suc n + suc (length bytes) ≡ suc (n + suc (length bytes)) = omega arith in
    ap (λ k. take k (m ∷ put n (b ∷ bytes) memory)) e
    ∙ ap (λ t. m ∷ t) (take-put n (b ∷ bytes) memory (omega arith))

-- What a write does, seen from the contents.
pub record Appends (bytes : List ℕ) (c : Chunk) : Type 0 where
  pub result : Result Overflow (Unit {0})
  pub after : Chunk
  pub returns : write bytes c ≡ some (result, after)
  pub refines : append (capacity c) bytes (contents c) ≡ (result, contents after)
  pub keeps : IsChunk after
  pub same_capacity : capacity after ≡ capacity c
  pub same_header : after.header ≡ record c.header { length = after.header.length }

-- The chunk after a write that fits.
abbrev written : List ℕ → Chunk → Chunk
written bytes c = record {
  header = record c.header { length = to_le_bytes 4 (payload_len c + length bytes) };
  payload = put (payload_len c) bytes c.payload;
}

payload_len-written :
    (bytes : List ℕ) (c : Chunk)
    → payload_len c + length bytes < 2 ^ 32
    → payload_len (written bytes c) ≡ payload_len c + length bytes
unfolding payload_len header_payload_len
payload_len-written bytes c h = from_le_bytes-to_le_bytes 4 _ (omega arith)

write-fits :
    (bytes : List ℕ) (c : Chunk)
    → payload_len c + length bytes ≤ capacity c
    → capacity c < 2 ^ 32
    → write bytes c ≡ some (ok tt, written bytes c)
unfolding write set_payload_len
write-fits bytes c h u = ground arith

write-overflows :
    (bytes : List ℕ) (c : Chunk)
    → capacity c < payload_len c + length bytes
    → write bytes c ≡ some (err overflow, c)
unfolding write
write-overflows bytes c h = ground arith

pub write-Appends : (bytes : List ℕ) (c : Chunk) → IsChunk c → Appends bytes c
write-Appends bytes c h = elim (Bool-cases (ltb (capacity c) (payload_len c + length bytes))) [
  | inl over ↦ record {
    result = err overflow;
    after = c;
    returns = write-overflows bytes c (ltb→lt _ _ over);
    refines = rw (length-contents c h.within, over) refl;
    keeps = h;
    same_capacity = refl;
    same_header = refl;
  }
  | inr fits ↦
      let small : payload_len c + length bytes ≤ capacity c = ground arith in
      let len = payload_len-written bytes c (omega (arith, h.u32)) in
      let size = length-put (payload_len c) bytes c.payload in
      record {
        result = ok tt;
        after = written bytes c;
        returns = write-fits bytes c small h.u32;
        refines =
            rw (length-contents c h.within, fits, len)
              (λ i. (ok tt, sym (take-put (payload_len c) bytes c.payload small) i));
        keeps = record {
          layout = record {
            magic_len = h.layout.magic_len;
            version_len = h.layout.version_len;
            length_len = length-to_le_bytes 4 _;
            start_len = h.layout.start_len;
            end_len = h.layout.end_len;
            pub_key_len = h.layout.pub_key_len;
          };
          magic = h.magic;
          within = omega (arith, len, size);
          u32 = omega (arith, h.u32, size);
        };
        same_capacity = size;
        same_header = refl;
      }
]
