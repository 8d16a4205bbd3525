-- ===== src/Runs/LazyFile.antt =====
-- The destination of extraction, on a disk that counts how often the file was opened.
use pinenut.Prelude.{ℕ, ◌≡◌, if◌then◌else◌, suc, refl, List, [], ◌∷◌, ◌++◌, length, ok}
use pinenut.Common.LazyFile.{DestSystem, new_lazy, is_empty}
use pinenut.Common.LazyFile.Created.{
  Counts, Call, writes_call, flush_call, after_calls, is_empty-after_calls,
}

abbrev counting : DestSystem (Unit {0}) (ℕ × List ℕ)
counting = record {
  create_parent = λ d. (ok tt, d);
  open_truncated = λ d. (ok tt, (suc d.0, []));
  write_file = λ f bytes d. (ok (length bytes), (d.0, d.1 ++ bytes));
  flush_file = λ f d. (ok tt, d);
}

counting-Counts : Counts counting (λ d. d.0)
counting-Counts = record {
  creates = λ d. refl;
  opening = λ d. refl;
  writes = λ f bytes d. refl;
  flushes = λ f d. refl;
}

abbrev calls : List Call
calls = flush_call ∷ writes_call (1 ∷ 2 ∷ []) ∷ writes_call (3 ∷ []) ∷ flush_call ∷ []

is_empty-after_calls_example :
    (after_calls counting calls (new_lazy, (0, 9 ∷ []))).1.0
    ≡ (if is_empty (after_calls counting calls (new_lazy, (0, 9 ∷ []))).0 then 0 else 1)
is_empty-after_calls_example =
    is_empty-after_calls counting (λ d. d.0) counting-Counts calls (0, 9 ∷ []) refl
