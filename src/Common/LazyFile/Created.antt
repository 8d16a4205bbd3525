-- ===== src/Common/LazyFile/Created.antt =====
-- When the destination of extraction is created.
use pinenut.Prelude.{
  ℕ, suc, ◌≡◌, ap, ◌∙◌, List, [], ◌∷◌, if◌then◌else◌, Option, none, some, Result, ok, err, continue,
}
use pinenut.Errors.{IoError}
use pinenut.Common.LazyFile.{
  DestSystem, LazyFileWriter, new_lazy, is_empty, keep_inner, create_if, in_file, write_lazy,
  flush_if, flush_lazy,
}

-- A call of the writer: its `write` of bytes, or its `flush`.
pub data Call : Type 0 where
  writes_call : List ℕ → Call
  flush_call : Call

module _ {F D : Type 0} (os : DestSystem F D) where
  -- The state after calls, whether they succeed or not.
  abbrev pub after_call : Call → LazyFileWriter F × D → LazyFileWriter F × D
  after_call (writes_call bytes) st = (write_lazy os bytes st).1
  after_call flush_call st = (flush_lazy os st).1

  abbrev pub after_calls : List Call → LazyFileWriter F × D → LazyFileWriter F × D
  after_calls [] st = st
  after_calls (call ∷ calls) st = after_calls calls (after_call call st)

  abbrev pub counted : Result IoError F → ℕ → ℕ
  counted (ok f) n = suc n
  counted (err e) n = n

  -- `opens` counts how often the file was opened.
  pub record Counts (opens : D → ℕ) : Type 0 where
    pub creates : (d : D) → opens (os.create_parent d).1 ≡ opens d
    pub opening :
        (d : D) → opens (os.open_truncated d).1 ≡ counted (os.open_truncated d).0 (opens d)
    pub writes : (f : F) (bytes : List ℕ) (d : D) → opens (os.write_file f bytes d).1 ≡ opens d
    pub flushes : (f : F) (d : D) → opens (os.flush_file f d).1 ≡ opens d

  module _ (opens : D → ℕ) (counts : Counts opens) where
    -- The file was opened once, or the writer is empty and it was not.
    abbrev IsOnce : LazyFileWriter F × D → Type 0
    IsOnce (w, d) = opens d ≡ (if is_empty w then 0 else 1)

    opened-IsOnce :
        (r : Result IoError F) (d : D) → opens d ≡ counted r 0 → IsOnce (keep_inner os (r, d)).1
    opened-IsOnce (ok f) d h = h
    opened-IsOnce (err e) d h = h

    continue-counted :
        (r : Result IoError (Unit {0})) (d : D)
        → opens d ≡ 0
        → (let p = continue r (λ _. os.open_truncated) d in opens p.1 ≡ counted p.0 0)
    continue-counted (ok _) d h = counts.opening d ∙ ap (counted (os.open_truncated d).0) h
    continue-counted (err e) d h = h

    create_if-IsOnce :
        (inner : Option F) (d : D)
        → IsOnce (record { inner = inner }, d)
        → IsOnce (create_if os inner d).1
    create_if-IsOnce (some f) d h = h
    create_if-IsOnce none d h =
        let (r, d') = os.create_parent d in
        let (opened, d'') = continue r (λ _. os.open_truncated) d' in
        opened-IsOnce opened d'' (continue-counted r d' (counts.creates d ∙ h))

    continue-IsOnce :
        (r : Result IoError F) (bytes : List ℕ) (st : LazyFileWriter F × D)
        → IsOnce st
        → IsOnce (continue r (in_file os (λ f. os.write_file f bytes)) st).1
    continue-IsOnce (ok f) bytes (w, d) h = counts.writes f bytes d ∙ h
    continue-IsOnce (err e) bytes st h = h

    flush_if-IsOnce :
        (inner : Option F) (d : D)
        → IsOnce (record { inner = inner }, d)
        → IsOnce (flush_if os inner (record { inner = inner }, d)).1
    flush_if-IsOnce none d h = h
    flush_if-IsOnce (some f) d h = counts.flushes f d ∙ h

    call-IsOnce :
        (call : Call) (st : LazyFileWriter F × D) → IsOnce st → IsOnce (after_call call st)
    unfolding write_lazy flush_lazy
    call-IsOnce (writes_call bytes) (w, d) h =
        let (r, st) = create_if os w.inner d in
        continue-IsOnce r bytes st (create_if-IsOnce w.inner d h)
    call-IsOnce flush_call (w, d) h = flush_if-IsOnce w.inner d h

    from-IsOnce :
        (calls : List Call) (st : LazyFileWriter F × D) → IsOnce st → IsOnce (after_calls calls st)
    from-IsOnce [] st h = h
    from-IsOnce (call ∷ calls) st h = from-IsOnce calls (after_call call st) (call-IsOnce call st h)

    -- However the writer of extraction's destination is written to and flushed, and whichever of the calls
    -- fail, the file is opened once at most, and the writer says that it is empty exactly if it never was:
    -- then the destination was not created or truncated. The system's opening is counted in its state.
    pub is_empty-after_calls :
        (calls : List Call) (d : D)
        → opens d ≡ 0
        → opens (after_calls calls (new_lazy, d)).1
          ≡ (if is_empty (after_calls calls (new_lazy, d)).0 then 0 else 1)
    is_empty-after_calls calls d h = from-IsOnce calls (new_lazy, d) h
