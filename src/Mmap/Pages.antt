-- ===== src/Mmap/Pages.antt =====
-- The memory of the core logger holds what the configuration asks for.
use pinenut.Prelude.{
  ℕ, ◌+◌, ◌-◌, ◌*◌, ◌/◌, ◌%◌, ◌^◌, ◌≤◌, ◌<◌, ◌≡◌, refl, sym, ap, ◌∙◌, arith, List, [], ◌∷◌, length,
  Bool, true, false, ◌==◌, ==_iff, ◌⊎◌, inl, inr, Result, ok, err, if◌then◌else◌, ◌>>=◌, ◌>>◌,
  >>=-eq-ok, pure,
}
use native.Mathlib.Nat.{div-add-mod, mod-lt, mod-eq_of_lt}
use pinenut.Errors.{IoError}
use pinenut.Mmap.{
  System, EitherMemory, vec_memory, mapped, memory_of, minus_one, round_up_page_size, resize,
  map_file, new_mmap, or_vec, initialize_memory,
}

-- A value rounded up to whole pages.
record Rounded (page_size value rounded : ℕ) : Type 0 where
  pages : ℕ
  whole : rounded ≡ pages * page_size
  enough : value ≤ rounded
  least : rounded < value + page_size

round_up_page_size-Rounded :
    (page_size value : ℕ)
    → 1 ≤ page_size
    → 1 ≤ value
    → value + page_size ≤ 2 ^ 64
    → Rounded page_size value (round_up_page_size page_size value)
unfolding round_up_page_size
round_up_page_size-Rounded p value hp hv h =
    let m : minus_one value ≡ value - 1 = omega arith in
    let q = (value - 1) / p in
    let split = div-add-mod (value - 1) p in
    let less : (value - 1) % p < p = mod-lt (value - 1) (omega arith) in
    let product : (q + 1) * p ≡ p * q + p = grind arith in
    let whole : round_up_page_size p value ≡ (q + 1) * p =
      ap (λ n. ((n / p + 1) * p) % 2 ^ 64) m ∙ mod-eq_of_lt (omega (arith, product, split, less)) in
    record {
      pages = q + 1;
      whole = whole;
      enough = omega (arith, whole, product, split, less);
      least = omega (arith, whole, product, split, less);
    }

module _ {F D : Type 0} (os : System F D) where
  -- What the system documents: the length that is told or set is that of the file, and mapping gives
  -- as many bytes as were asked for and leaves the file's length alone.
  pub record IsSystem : Type 0 where
    pub len_of : F → D → ℕ
    pub page_pos : 1 ≤ os.page_size
    pub file_len-tells :
        (file : F) (n : ℕ) (d d' : D) → os.file_len file d ≡ (ok n, d') → len_of file d' ≡ n
    pub set_len-sets :
        (file : F) (n : ℕ) (d d' : D) → os.set_len file n d ≡ (ok tt, d') → len_of file d' ≡ n
    pub mmap-gives :
        (file : F) (n : ℕ) (bytes : List ℕ) (d d' : D)
        → os.mmap file n d ≡ (ok bytes, d')
        → (length bytes ≡ n) × (len_of file d' ≡ len_of file d)
    pub length-uninit : (n : ℕ) → length (os.uninit n) ≡ n

  module _ (laws : IsSystem) where
    open laws use {len_of, page_pos, file_len-tells, set_len-sets, mmap-gives, length-uninit}

    resize-sets :
        (file : F) (len old : ℕ) (d d' : D)
        → len_of file d ≡ old
        → resize os file len old d ≡ (ok tt, d')
        → len_of file d' ≡ len
    resize-sets file len old d d' h e = go (old == len) refl e
      where
        go :
            (b : Bool)
            → (old == len) ≡ b
            → (if b then pure tt else os.set_len file len) d ≡ (ok tt, d')
            → len_of file d' ≡ len
        go true p e = ap (λ r. len_of file r.1) (sym e) ∙ h ∙ (==_iff old len).0 p
        go false p e = set_len-sets file len d d' e

    -- A file of whole pages, no more than are needed, is mapped to memory from end to end.
    pub record Whole (value : ℕ) (bytes : List ℕ) (d : D) : Type 0 where
      pub file : F
      pub pages : ℕ
      pub size : len_of file d ≡ pages * os.page_size
      pub maps : length bytes ≡ len_of file d
      pub enough : value ≤ length bytes
      pub least : length bytes < value + os.page_size

    map_file-Whole :
        (value len : ℕ) (file : F) (bytes : List ℕ) (d d' : D)
        → Rounded os.page_size value len
        → map_file os len file d ≡ (ok bytes, d')
        → Whole value bytes d'
    map_file-Whole value len file bytes d d' r e =
        let (u, d2, sized, gave) =
          >>=-eq-ok (os.file_len file >>= resize os file len) (λ x. os.mmap file len) d e in
        let (old, d1, told, resized) = >>=-eq-ok (os.file_len file) (resize os file len) d sized in
        let set = resize-sets file len old d1 d2 (file_len-tells file old d d1 told) resized in
        let (maps, keeps) = mmap-gives file len bytes d2 d' gave in
        record {
          file = file;
          pages = r.pages;
          size = keeps ∙ set ∙ r.whole;
          maps = maps ∙ sym set ∙ sym keeps;
          enough = omega (arith, maps, r.enough);
          least = omega (arith, maps, r.least);
        }

    new_mmap-Whole :
        (value : ℕ) (bytes : List ℕ) (d d' : D)
        → 1 ≤ value
        → value + os.page_size ≤ 2 ^ 64
        → new_mmap os value d ≡ (ok bytes, d')
        → Whole value bytes d'
    unfolding new_mmap
    new_mmap-Whole value bytes d d' hv h e =
        let len = round_up_page_size os.page_size value in
        let (file, d1, opened, gave) =
          >>=-eq-ok (os.create_parent >> os.open_mapped) (map_file os len) d e in
        map_file-Whole value len file bytes d1 d'
          (round_up_page_size-Rounded os.page_size value page_pos hv h) gave

    -- What the logger starts with: the mapping, or else a buffer in the heap of the length asked for;
    -- `tracked` are the errors.
    pub record Enough (use_mmap : Bool) (value : ℕ) (d d' : D) (memory : EitherMemory)
        (tracked : List IoError) : Type 0 where
      pub enough : value ≤ length (memory_of memory)
      pub least : length (memory_of memory) < value + os.page_size
      pub which :
          ((use_mmap ≡ true)
            × (tracked ≡ [])
            × ((bytes : List ℕ) × (memory ≡ mapped bytes) × Whole value bytes d'))
          ⊎ ((memory ≡ vec_memory (os.uninit value))
              × (((use_mmap ≡ false) × (tracked ≡ []))
                  ⊎ ((use_mmap ≡ true)
                      × ((e : IoError) × (new_mmap os value d ≡ (err e, d'))
                          × (tracked ≡ e ∷ [])))))

    vec-Enough :
        (use_mmap : Bool) (value : ℕ) (d d' : D) (tracked : List IoError)
        → ((use_mmap ≡ false) × (tracked ≡ []))
          ⊎ ((use_mmap ≡ true)
              × ((e : IoError) × (new_mmap os value d ≡ (err e, d')) × (tracked ≡ e ∷ [])))
        → Enough use_mmap value d d' (vec_memory (os.uninit value)) tracked
    vec-Enough use_mmap value d d' tracked why =
        let len = length-uninit value in
        record {
          enough = omega (arith, len);
          least = omega (arith, len, page_pos);
          which = inr (refl, why);
        }

    -- Whether the buffer is to be mapped or not, and whatever fails, the core logger starts with memory
    -- of at least the length that the configuration asks for and less than a page more. The memory is
    -- mapped from a file from end to end, which is of whole pages then, or is in the heap, because mapping
    -- was not asked for or failed, and then just its error is tracked. The length asked for is not 0,
    -- and with a page more is at most 2^64; the system keeps to what it documents.
    pub initialize_memory-Enough :
        (use_mmap : Bool) (value : ℕ) (d : D)
        → 1 ≤ value
        → value + os.page_size ≤ 2 ^ 64
        → let ((memory, tracked), d') = initialize_memory os use_mmap value d in
          Enough use_mmap value d d' memory tracked
    unfolding initialize_memory
    initialize_memory-Enough false value d hv h = vec-Enough false value d d [] (inl (refl, refl))
    initialize_memory-Enough true value d hv h = go (new_mmap os value d) refl
      where
        go :
            (out : Result IoError (List ℕ) × D)
            → new_mmap os value d ≡ out
            → let ((memory, tracked), d') = or_vec os value out in
              Enough true value d d' memory tracked
        go (ok bytes, d') e =
            let w = new_mmap-Whole value bytes d d' hv h e in
            record {
              enough = w.enough;
              least = w.least;
              which = inl (refl, refl, (bytes, refl, w));
            }
        go (err x, d') e = vec-Enough true value d d' (x ∷ []) (inr (refl, (x, e, refl)))
