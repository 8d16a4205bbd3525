-- ===== src/Logfile/Files.antt =====
-- `Logfile` of pinenut/src/logfile.rs: a file that is opened when it is first used. The file system is a
-- parameter, with its handles `F` and its state `D`; it knows the files by their names in the directory
-- of the domain, of which `identifier` is the name.
pub mod Disk
use pinenut.Prelude.{
  ℕ, List, [], ◌∷◌, Bool, true, false, not, if◌then◌else◌, Option, none, some, Result, ok, err,
  Exec, ◌>>=◌, ◌>>◌, pure,
}
use pinenut.Errors.{IoError}
use pinenut.Chrono.{Chrono}
use pinenut.Logfile.{name, from_entry}

pub data Mode : Type 0 where
  read_mode write_mode : Mode

-- `fs::OpenOptions` as `open` sets them.
pub record OpenOptions : Type 0 where
  pub read : Bool
  pub append : Bool
  pub create : Bool

pub record FileSystem (F D : Type 0) : Type 0 where
  pub create_dir_all : Exec D IoError (Unit {0})
  pub open_file : OpenOptions → List ℕ → Exec D IoError F
  pub seek_end : F → Exec D IoError (Unit {0})
  pub write_all : F → List ℕ → Exec D IoError (Unit {0})
  pub flush_file : F → Exec D IoError (Unit {0})
  pub sync_all : F → Exec D IoError (Unit {0})
  pub remove_file : List ℕ → Exec D IoError (Unit {0})
  pub read_dir : Exec D IoError (List (List ℕ))

-- `Logfile`; its domain is a parameter.
pub record Logfile (c : Chrono) (F : Type 0) : Type 0 where
  pub datetime : c.DateTime
  pub mode : Mode
  pub lazy_file : Option F

module _ (c : Chrono) {F D : Type 0} (fs : FileSystem F D) (identifier : List ℕ) where
  -- `Logfile::new`
  unfoldable pub new_logfile : c.DateTime → Mode → Logfile c F
  new_logfile datetime mode = record { datetime = datetime; mode = mode; lazy_file = none }

  -- `Logfile::path`, in the domain's directory.
  unfoldable pub path : Logfile c F → List ℕ
  path f = name c identifier f.datetime

  abbrev pub to_write : Mode → Bool
  to_write read_mode = false
  to_write write_mode = true

  abbrev pub options_of : Mode → OpenOptions
  options_of mode = record {
    read = not (to_write mode);
    append = to_write mode;
    create = to_write mode;
  }

  -- The file is created with its directories when it is to be written.
  unfoldable pub open_new : Logfile c F → Exec D IoError F
  open_new f =
      (if to_write f.mode then fs.create_dir_all else pure tt)
      >> fs.open_file (options_of f.mode) (path f)

  abbrev pub keep_file : Logfile c F → Result IoError F × D → Result IoError F × (Logfile c F × D)
  keep_file f (err e, d) = (err e, (f, d))
  keep_file f (ok file, d) = (ok file, (record f { lazy_file = some file }, d))

  abbrev pub open_if : Option F → Exec (Logfile c F × D) IoError F
  open_if (some file) (f, d) = (ok file, (f, d))
  open_if none (f, d) = keep_file f (open_new f d)

  -- `Logfile::open`
  unfoldable pub open_logfile : Exec (Logfile c F × D) IoError F
  open_logfile (f, d) = open_if f.lazy_file (f, d)

  abbrev pub on_disk : Exec D IoError (Unit {0}) → Exec (Logfile c F × D) IoError (Unit {0})
  on_disk m (f, d) = let (r, d') = m d in (r, (f, d'))

  -- `Logfile::write`, `Logfile::flush` and `Logfile::delete`
  unfoldable pub write_logfile : List ℕ → Exec (Logfile c F × D) IoError (Unit {0})
  write_logfile bytes =
      open_logfile >>= λ file. on_disk (fs.seek_end file >> fs.write_all file bytes)

  unfoldable pub flush_logfile : Exec (Logfile c F × D) IoError (Unit {0})
  flush_logfile = open_logfile >>= λ file. on_disk (fs.flush_file file >> fs.sync_all file)

  unfoldable pub delete_logfile : Logfile c F → Exec D IoError (Unit {0})
  delete_logfile f = fs.remove_file (path f)

  -- `Logfile::logfiles`: the entries of the directory that are log files of the domain.
  abbrev pub logfile_at : Mode → Option c.DateTime → List (Logfile c F) → List (Logfile c F)
  logfile_at mode none fs = fs
  logfile_at mode (some datetime) fs = new_logfile datetime mode ∷ fs

  unfoldable pub logfiles_in : Mode → List (List ℕ) → List (Logfile c F)
  logfiles_in mode [] = []
  logfiles_in mode (entry ∷ entries) =
      logfile_at mode (from_entry c identifier entry) (logfiles_in mode entries)

  unfoldable pub logfiles : Mode → Exec D IoError (List (Logfile c F))
  logfiles mode = fs.read_dir >>= λ entries. pure (logfiles_in mode entries)
