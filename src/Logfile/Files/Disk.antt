-- ===== src/Logfile/Files/Disk.antt =====
-- Log files on a disk that does not fail.
use pinenut.Prelude.{
  ℕ, ◌≡◌, ◌≢◌, refl, sym, ap, ◌∙◌, List, ◌++◌, true, false, ◌⊎◌, inl, inr, none, some, ok, Exec,
}
use pinenut.Errors.{IoError}
use pinenut.Chrono.{Chrono}
use pinenut.Logfile.Files.{
  write_mode, FileSystem, Logfile, path, open_new, open_logfile, write_logfile, flush_logfile,
}

module _ {F D : Type 0} (fs : FileSystem F D) where
  -- A step that succeeds and changes no file.
  abbrev pub Keeps : {A : Type 0} → (D → List ℕ → List ℕ) → Exec D IoError A → D → Type 0
  Keeps {A} content m d =
      (a : A) × (d' : D) × (m d ≡ (ok a, d')) × ((g : List ℕ) → content d' g ≡ content d g)

  -- The bytes of the files by their names, and the names of open files.
  pub record IsDisk (content : D → List ℕ → List ℕ) (name_of : F → List ℕ) : Type 0 where
    pub creates : (d : D) → Keeps content fs.create_dir_all d
    pub opens :
        (n : List ℕ) (d : D)
        → Keeps content (fs.open_file (record { read = false; append = true; create = true }) n) d
    pub names :
        (n : List ℕ) (d d' : D) (file : F)
        → fs.open_file (record { read = false; append = true; create = true }) n d ≡ (ok file, d')
        → name_of file ≡ n
    pub seeks : (file : F) (d : D) → Keeps content (fs.seek_end file) d
    pub flushes : (file : F) (d : D) → Keeps content (fs.flush_file file) d
    pub syncs : (file : F) (d : D) → Keeps content (fs.sync_all file) d
    pub writes :
        (file : F) (bytes : List ℕ) (d : D) → (d' : D) × (fs.write_all file bytes d ≡ (ok tt, d'))
    pub appends :
        (file : F) (bytes : List ℕ) (d d' : D)
        → fs.write_all file bytes d ≡ (ok tt, d')
        → content d' (name_of file) ≡ content d (name_of file) ++ bytes
    pub others :
        (file : F) (bytes : List ℕ) (d d' : D) (g : List ℕ)
        → fs.write_all file bytes d ≡ (ok tt, d')
        → name_of file ≢ g
        → content d' g ≡ content d g

module _ (c : Chrono) {F D : Type 0} {fs : FileSystem F D} {content : D → List ℕ → List ℕ}
    {name_of : F → List ℕ} (disk : IsDisk fs content name_of) (identifier : List ℕ) where
  -- A log file to write to: it is not open, or open under its own name.
  pub record IsWritable (f : Logfile c F) : Type 0 where
    pub to_write : f.mode ≡ write_mode
    pub handle :
        (f.lazy_file ≡ none)
        ⊎ ((file : F) × (f.lazy_file ≡ some file) × (name_of file ≡ path c fs identifier f))

  record Ready (f : Logfile c F) (d : D) : Type 0 where
    file : F
    d' : D
    opened :
        open_logfile c fs identifier (f, d) ≡ (ok file, (record f { lazy_file = some file }, d'))
    named : name_of file ≡ path c fs identifier f
    same : (g : List ℕ) → content d' g ≡ content d g

  open-Ready : (f : Logfile c F) (d : D) → IsWritable f → Ready f d
  unfolding open_logfile open_new path
  open-Ready f d w = go w.handle
    where
      go :
          (f.lazy_file ≡ none)
            ⊎ ((file : F) × (f.lazy_file ≡ some file) × (name_of file ≡ path c fs identifier f))
          → Ready f d
      go (inl closed) =
          let (u, d1, made, kept1) = disk.creates d in
          let (file, d2, opened, kept2) = disk.opens (path c fs identifier f) d1 in
          record {
            file = file;
            d' = d2;
            opened = rw (closed, w.to_write, made, opened) refl;
            named = disk.names (path c fs identifier f) d1 d2 file opened;
            same = λ g. kept2 g ∙ kept1 g;
          }
      go (inr (file, open_file, named)) = record {
        file = file;
        d' = d;
        opened = rw open_file refl;
        named = named;
        same = λ g. refl;
      }

  -- A write and a flush of a log file.
  pub record Stores (f : Logfile c F) (bytes : List ℕ) (d : D) : Type 0 where
    pub after : Logfile c F
    pub mid : D
    pub left : D
    pub written : write_logfile c fs identifier bytes (f, d) ≡ (ok tt, (after, mid))
    pub flushed : flush_logfile c fs identifier (after, mid) ≡ (ok tt, (after, left))
    pub writable : IsWritable after
    pub same_path : path c fs identifier after ≡ path c fs identifier f
    pub appended :
        content left (path c fs identifier f) ≡ content d (path c fs identifier f) ++ bytes
    pub other_files : (g : List ℕ) → path c fs identifier f ≢ g → content left g ≡ content d g

  -- A write to a log file appends to the file of its name, however it is opened, and leaves the others.
  pub write_logfile-Stores :
      (f : Logfile c F) (bytes : List ℕ) (d : D) → IsWritable f → Stores f bytes d
  unfolding write_logfile flush_logfile open_logfile path
  write_logfile-Stores f bytes d w =
      let r = open-Ready f d w in
      let (u1, d1, sought, kept1) = disk.seeks r.file r.d' in
      let (d2, put) = disk.writes r.file bytes d1 in
      let (u2, d3, flushed, kept3) = disk.flushes r.file d2 in
      let (u3, d4, synced, kept4) = disk.syncs r.file d3 in
      let name = path c fs identifier f in
      record {
        after = record f { lazy_file = some r.file };
        mid = d2;
        left = d4;
        written = rw (r.opened, sought, put) refl;
        flushed = rw (flushed, synced) refl;
        writable = record { to_write = w.to_write; handle = inr (r.file, refl, r.named) };
        same_path = refl;
        appended =
            kept4 name
            ∙ kept3 name
            ∙ ap (content d2) (sym r.named)
            ∙ disk.appends r.file bytes d1 d2 put
            ∙ ap (λ n. content d1 n ++ bytes) r.named
            ∙ ap (λ t. t ++ bytes) (kept1 name ∙ r.same name);
        other_files = λ g e.
            kept4 g
            ∙ kept3 g
            ∙ disk.others r.file bytes d1 d2 g put (λ s. e (sym r.named ∙ s))
            ∙ kept1 g
            ∙ r.same g;
      }
