-- ===== src/Mmap.antt =====
-- pinenut/src/mmap.rs: a file mapped to memory; and, of pinenut/src/logger.rs, the memory of the core
-- logger. The operating system is a parameter, with its handles `F` and its state `D`; a mapping is the
-- list of the bytes of its memory.
pub mod Pages
use pinenut.Prelude.{
  ℕ, ◌+◌, ◌-◌, ◌*◌, ◌/◌, ◌%◌, ◌^◌, List, [], ◌∷◌, Bool, ◌==◌, if◌then◌else◌, Result, ok, err, Exec,
  ◌>>=◌, ◌>>◌, pure,
}
use pinenut.Errors.{IoError}

pub record System (F D : Type 0) : Type 0 where
  pub page_size : ℕ
  pub create_parent : Exec D IoError (Unit {0})
  pub open_mapped : Exec D IoError F
  pub file_len : F → Exec D IoError ℕ
  pub set_len : F → ℕ → Exec D IoError (Unit {0})
  pub mmap : F → ℕ → Exec D IoError (List ℕ)
  pub uninit : ℕ → List ℕ

-- `EitherMemory` of pinenut/src/buffer.rs
pub data EitherMemory : Type 0 where
  vec_memory mapped : List ℕ → EitherMemory

abbrev pub memory_of : EitherMemory → List ℕ
memory_of (vec_memory bytes) = bytes
memory_of (mapped bytes) = bytes

-- `round_up_page_size`, on a usize of 64 bits.
abbrev pub minus_one : ℕ → ℕ
minus_one value = (value + (2 ^ 64 - 1)) % 2 ^ 64

unfoldable pub round_up_page_size : ℕ → ℕ → ℕ
round_up_page_size page_size value = ((minus_one value / page_size + 1) * page_size) % 2 ^ 64

module _ {F D : Type 0} (os : System F D) where
  abbrev pub resize : F → ℕ → ℕ → Exec D IoError (Unit {0})
  resize file len old = if old == len then pure tt else os.set_len file len

  abbrev pub map_file : ℕ → F → Exec D IoError (List ℕ)
  map_file len file = (os.file_len file >>= resize file len) >> os.mmap file len

  -- `Mmap::new`, of a path whose parent is `create_parent`'s.
  unfoldable pub new_mmap : ℕ → Exec D IoError (List ℕ)
  new_mmap value =
      (os.create_parent >> os.open_mapped) >>= map_file (round_up_page_size os.page_size value)

  -- What `Core::initialize_memory` makes of the mapping; the error is tracked.
  abbrev pub or_vec : ℕ → Result IoError (List ℕ) × D → (EitherMemory × List IoError) × D
  or_vec buffer_len (ok bytes, d) = ((mapped bytes, []), d)
  or_vec buffer_len (err e, d) = ((vec_memory (os.uninit buffer_len), e ∷ []), d)

  -- `Core::initialize_memory`
  unfoldable pub initialize_memory : Bool → ℕ → D → (EitherMemory × List IoError) × D
  initialize_memory use_mmap buffer_len d =
      if use_mmap
      then or_vec buffer_len (new_mmap buffer_len d)
      else ((vec_memory (os.uninit buffer_len), []), d)
