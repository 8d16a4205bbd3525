-- ===== src/Runs/Mmap.antt =====
-- A disk with one file, of which the state is the length, and pages of 16 bytes.
use pinenut.Prelude.{ℕ, zero, suc, ◌≡◌, refl, sym, ap, ◌∙◌, arith, List, [], ◌∷◌, length, true, ok}
use pinenut.Mmap.{System, initialize_memory, mapped, new_mmap, round_up_page_size}
use pinenut.Mmap.Pages.{IsSystem, Enough, initialize_memory-Enough}

abbrev zeros : ℕ → List ℕ
zeros zero = []
zeros (suc n) = 0 ∷ zeros n

length-zeros : (n : ℕ) → length (zeros n) ≡ n
length-zeros zero = refl
length-zeros (suc n) = ap suc (length-zeros n)

abbrev one_file : System (Unit {0}) ℕ
one_file = record {
  page_size = 16;
  create_parent = λ d. (ok tt, d);
  open_mapped = λ d. (ok tt, d);
  file_len = λ file d. (ok d, d);
  set_len = λ file n d. (ok tt, n);
  mmap = λ file n d. (ok (zeros n), d);
  uninit = zeros;
}

one_file-IsSystem : IsSystem one_file
one_file-IsSystem = record {
  len_of = λ file d. d;
  page_pos = omega arith;
  file_len-tells = λ file n d d' e. cc (e);
  set_len-sets = λ file n d d' e. cc (e);
  mmap-gives = λ file n bytes d d' e.
      let same : zeros n ≡ bytes = cc (e) in (ap length (sym same) ∙ length-zeros n, cc (e));
  length-uninit = length-zeros;
}

mapped_20 : (initialize_memory one_file true 20 3).0 ≡ (mapped (zeros 32), [])
unfolding initialize_memory new_mmap round_up_page_size
mapped_20 = refl

initialize_memory-Enough_example :
    Enough one_file one_file-IsSystem true 20 3
      (initialize_memory one_file true 20 3).1
      (initialize_memory one_file true 20 3).0.0
      (initialize_memory one_file true 20 3).0.1
initialize_memory-Enough_example =
    initialize_memory-Enough one_file one_file-IsSystem true 20 3 (omega arith) (omega arith)
