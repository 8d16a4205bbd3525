-- ===== src/Common/LazyFile.antt =====
-- `LazyFileWriter` of pinenut/src/common.rs: the destination of extraction, created by the first write. The
-- file system is a parameter, with its handles `F` and its state `D`; the path is that of its two calls.
pub mod Created
use pinenut.Prelude.{
  ℕ, List, Bool, true, false, Option, none, some, Result, ok, err, Exec, ◌>>=◌, ◌>>◌,
}
use pinenut.Errors.{IoError}

pub record DestSystem (F D : Type 0) : Type 0 where
  pub create_parent : Exec D IoError (Unit {0})
  pub open_truncated : Exec D IoError F
  pub write_file : F → List ℕ → Exec D IoError ℕ
  pub flush_file : F → Exec D IoError (Unit {0})

-- `LazyFileWriter`, without its path.
pub record LazyFileWriter (F : Type 0) : Type 0 where
  pub inner : Option F

-- `LazyFileWriter::new`
abbrev pub new_lazy : {F : Type 0} → LazyFileWriter F
new_lazy = record { inner = none }

abbrev pub is_none : {F : Type 0} → Option F → Bool
is_none none = true
is_none (some f) = false

-- `LazyFileWriter::is_empty`
abbrev pub is_empty : {F : Type 0} → LazyFileWriter F → Bool
is_empty w = is_none w.inner

module _ {F D : Type 0} (os : DestSystem F D) where
  abbrev pub keep_inner : Result IoError F × D → Result IoError F × (LazyFileWriter F × D)
  keep_inner (err e, d) = (err e, (record { inner = none }, d))
  keep_inner (ok f, d) = (ok f, (record { inner = some f }, d))

  -- The file that is there, or a new one.
  abbrev pub create_if : Option F → D → Result IoError F × (LazyFileWriter F × D)
  create_if (some f) d = (ok f, (record { inner = some f }, d))
  create_if none d = keep_inner ((os.create_parent >> os.open_truncated) d)

  abbrev pub in_file :
      {A : Type 0} → (F → Exec D IoError A) → F → Exec (LazyFileWriter F × D) IoError A
  in_file m f (w, d) = let (r, d') = m f d in (r, (w, d'))

  -- `write`
  unfoldable pub write_lazy : List ℕ → Exec (LazyFileWriter F × D) IoError ℕ
  write_lazy bytes = (λ st. create_if st.0.inner st.1) >>= in_file (λ f. os.write_file f bytes)

  abbrev pub flush_if : Option F → Exec (LazyFileWriter F × D) IoError (Unit {0})
  flush_if none st = (ok tt, st)
  flush_if (some f) st = in_file os.flush_file f st

  -- `flush`
  unfoldable pub flush_lazy : Exec (LazyFileWriter F × D) IoError (Unit {0})
  flush_lazy st = flush_if st.0.inner st
