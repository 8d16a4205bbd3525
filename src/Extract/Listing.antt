-- ===== src/Extract/Listing.antt =====
-- `logfiles` of pinenut/src/extract.rs: the log files of the directory, sorted by date, of which extraction
-- reads some. The sorting is the standard library's, a parameter.
pub mod Sorting
pub mod Entries
use pinenut.Prelude.{
  ap, ◌∙◌, Option, some, none, ℕ, ◌≡◌, refl, sym, subst, List, [], ◌∷◌, ◌++◌, Bool, true, false,
  ◌⊎◌, inl, inr, All, Sink, ok, Exec, ◌>>=◌, pure,
}
use mathlib.Core.List.{Memᴰ}
use mathlib.Core.List.Memᴰ
use pinenut.Errors.{IoError}
use pinenut.Chrono.{Chrono}
use pinenut.Parse.Errors.{TimeRange}
use pinenut.Logfile.{from_entry}
use pinenut.Logfile.Files.{
  FileSystem, Logfile, read_mode, new_logfile, logfile_at, logfiles_in, logfiles,
}
use pinenut.Extract.{select}
use pinenut.Extract.Listing.Sorting.{All-at, IsSorted, IsSorted-front, IsSorted-back, across}
use pinenut.Extract.Listing.Entries.{IsListed, logfiles_in-IsListed, mem-logfiles_in}
use pinenut.Extract.Files.{Chosen, First, IsAfter, IsBefore, select-Chosen}

module _ (c : Chrono) {W : Type 0} (write_all : Sink W IoError) (range : TimeRange c.DateTime)
    {F D : Type 0} (fs : FileSystem F D) (identifier : List ℕ)
    (sort : List (Logfile c F) → List (Logfile c F)) where
  abbrev date : Logfile c F → c.DateTime
  date f = f.datetime

  -- `logfiles` of a domain and a range.
  unfoldable pub logfiles_of_range : Exec D IoError (List (Logfile c F))
  logfiles_of_range = logfiles c fs identifier read_mode >>= λ original.
      pure (select c write_all range date [] (sort original))

  abbrev pub by_date : Logfile c F → Logfile c F → Bool
  by_date f g = c.leb f.datetime g.datetime

  -- What `sort_by_key` documents.
  pub record IsSort : Type 0 where
    pub sorted : (files : List (Logfile c F)) → IsSorted by_date (sort files)
    pub keeps : {f : Logfile c F} (files : List (Logfile c F)) → Memᴰ f files → Memᴰ f (sort files)
    pub adds_none :
        {f : Logfile c F} (files : List (Logfile c F)) → Memᴰ f (sort files) → Memᴰ f files

  -- Dated before the end of the range.
  abbrev pub IsInTime : Logfile c F → Type 0
  IsInTime f = c.leb range.1 f.datetime ≡ false

  record SelectedOf (original chosen : List (Logfile c F)) : Type 0 where
    listed : {f : Logfile c F} → Memᴰ f chosen → Memᴰ f original × IsInTime f
    covers :
        {f : Logfile c F}
        → Memᴰ f original
        → IsInTime f
        → Memᴰ f chosen
          ⊎ ((g : Logfile c F) × Memᴰ g chosen
              × (by_date f g ≡ true)
              × (c.leb g.datetime range.0 ≡ true))
    ordered : IsSorted by_date chosen

  Chosen-Selected :
      (laws : IsSort)
      (trans : (s t u : c.DateTime) → c.leb s t ≡ true → c.leb t u ≡ true → c.leb s u ≡ true)
      (original chosen : List (Logfile c F))
      → Chosen c write_all range date (sort original) chosen
      → SelectedOf original chosen
  Chosen-Selected laws trans original chosen h =
      let sorted : IsSorted by_date (h.dropped ++ (chosen ++ h.rest)) =
        subst (IsSorted by_date) (sym h.parts) (laws.sorted original) in
      let back = IsSorted-back by_date h.dropped (chosen ++ h.rest) sorted in
      record {
        listed = λ {f} m. (
          laws.adds_none original
              (subst (Memᴰ f) h.parts (Memᴰ.append_right h.dropped (Memᴰ.append_left h.rest m))),
          All-at IsInTime (Memᴰ.append_right h.dropped m) h.before_end,
        );
        covers = λ {f} m in_time.
            covers_part f in_time
              (Memᴰ.append_cases h.dropped (subst (Memᴰ f) (sym h.parts) (laws.keeps original m)))
              sorted back;
        ordered = IsSorted-front by_date chosen h.rest back;
      }
    where
      Covered : Logfile c F → Type 0
      Covered f =
          Memᴰ f chosen
          ⊎ ((g : Logfile c F) × Memᴰ g chosen
              × (by_date f g ≡ true)
              × (c.leb g.datetime range.0 ≡ true))

      first_covers :
          (f : Logfile c F) (ds xs rest : List (Logfile c F))
          → First (IsBefore c write_all range date) xs
          → IsSorted by_date (ds ++ (xs ++ rest))
          → Memᴰ f ds
          → (g : Logfile c F) × Memᴰ g xs × (by_date f g ≡ true) × (c.leb g.datetime range.0 ≡ true)
      first_covers f ds [] rest first s m = absurd first
      first_covers f ds (g ∷ xs) rest first s m =
          (g, Memᴰ.head refl, across by_date ds (g ∷ (xs ++ rest)) s m (Memᴰ.head refl), first)

      none_behind :
          (f : Logfile c F) (rest : List (Logfile c F))
          → First (IsAfter c write_all range date) rest
          → IsSorted by_date rest
          → Memᴰ f rest
          → c.leb range.1 f.datetime ≡ true
      none_behind f [] first s m = absurd first
      none_behind f (r ∷ rest) first s (Memᴰ.head e) =
          subst (λ t. c.leb range.1 t.datetime ≡ true) (sym e) first
      none_behind f (r ∷ rest) first s (Memᴰ.tail m) =
          trans range.1 r.datetime f.datetime first (All-at (λ y. by_date r y ≡ true) m s.0)

      behind_part :
          (f : Logfile c F) (rest : List (Logfile c F))
          → IsInTime f
          → (rest ≡ []) ⊎ First (IsAfter c write_all range date) rest
          → IsSorted by_date rest
          → Memᴰ f rest
          → ⊥
      behind_part f rest in_time (inl e) s m = Memᴰ.not-nil (subst (Memᴰ f) e m)
      behind_part f rest in_time (inr first) s m = cc (in_time, none_behind f rest first s m)

      dropped_part :
          (f : Logfile c F)
          → (h.dropped ≡ []) ⊎ First (IsBefore c write_all range date) chosen
          → IsSorted by_date (h.dropped ++ (chosen ++ h.rest))
          → Memᴰ f h.dropped
          → Covered f
      dropped_part f (inl e) s m = absurd (Memᴰ.not-nil (subst (Memᴰ f) e m))
      dropped_part f (inr first) s m = inr (first_covers f h.dropped chosen h.rest first s m)

      chosen_part :
          (f : Logfile c F)
          → IsInTime f
          → IsSorted by_date (chosen ++ h.rest)
          → Memᴰ f chosen ⊎ Memᴰ f h.rest
          → Covered f
      chosen_part f in_time s (inl m) = inl m
      chosen_part f in_time s (inr m) =
          absurd (behind_part f h.rest in_time h.behind (IsSorted-back by_date chosen h.rest s) m)

      covers_part :
          (f : Logfile c F)
          → IsInTime f
          → Memᴰ f h.dropped ⊎ Memᴰ f (chosen ++ h.rest)
          → IsSorted by_date (h.dropped ++ (chosen ++ h.rest))
          → IsSorted by_date (chosen ++ h.rest)
          → Covered f
      covers_part f in_time (inl m) s b = dropped_part f h.starts s m
      covers_part f in_time (inr m) s b = chosen_part f in_time b (Memᴰ.append_cases chosen m)

  -- What is read, of the entries of the directory.
  pub record Selected (entries : List (List ℕ)) (chosen : List (Logfile c F)) : Type 0 where
    pub listed : {f : Logfile c F} → Memᴰ f chosen → IsListed c fs identifier entries f × IsInTime f
    pub covers :
        {entry : List ℕ} {t : c.DateTime}
        → Memᴰ entry entries
        → from_entry c identifier entry ≡ some t
        → c.leb range.1 t ≡ false
        → (g : Logfile c F) × Memᴰ g chosen
          × ((g.datetime ≡ t) ⊎ ((c.leb t g.datetime ≡ true) × (c.leb g.datetime range.0 ≡ true)))
    pub ordered : IsSorted by_date chosen

  SelectedOf-Selected :
      (entries : List (List ℕ)) (chosen : List (Logfile c F))
      → SelectedOf (logfiles_in c fs identifier read_mode entries) chosen
      → Selected entries chosen
  SelectedOf-Selected entries chosen h = record {
    listed = λ {f} m.
        let (from, in_time) = h.listed m in
        (logfiles_in-IsListed c fs identifier entries f from, in_time);
    covers = λ {entry} {t} m e in_time.
        go t (h.covers (mem-logfiles_in c fs identifier entries entry t m e) in_time);
    ordered = h.ordered;
  }
    where
      go :
          (t : c.DateTime)
          → Memᴰ {A = Logfile c F}
              (record { datetime = t; mode = read_mode; lazy_file = none })
              chosen
            ⊎ ((g : Logfile c F) × Memᴰ g chosen
                × (c.leb t g.datetime ≡ true)
                × (c.leb g.datetime range.0 ≡ true))
          → (g : Logfile c F) × Memᴰ g chosen
            × ((g.datetime ≡ t) ⊎ ((c.leb t g.datetime ≡ true) × (c.leb g.datetime range.0 ≡ true)))
      go t (inl m) = (_, m, inl refl)
      go t (inr (g, m, later, starts)) = (g, m, inr (later, starts))

  -- When the directory can be listed, extraction reads log files that are in it, those whose names are a
  -- log file's of the domain, dated before the end of the range and in the order of their dates; and of
  -- those in the directory that are dated before the end, it reads one of each date, unless it reads one
  -- that is dated neither before that date nor after the start of the range. The dates' order is
  -- transitive, and the sorting behaves as the standard library documents.
  pub logfiles_of_range-Selected :
      (laws : IsSort)
      (trans : (s t u : c.DateTime) → c.leb s t ≡ true → c.leb t u ≡ true → c.leb s u ≡ true)
      (entries : List (List ℕ)) (d d' : D)
      → fs.read_dir d ≡ (ok entries, d')
      → (chosen : List (Logfile c F)) × (logfiles_of_range d ≡ (ok chosen, d'))
        × Selected entries chosen
  unfolding logfiles_of_range logfiles
  logfiles_of_range-Selected laws trans entries d d' e =
      let original = logfiles_in c fs identifier read_mode entries in
      let chosen = select c write_all range date [] (sort original) in
      (
        chosen,
        rw e refl,
        SelectedOf-Selected entries chosen (
            Chosen-Selected laws trans original chosen
              (select-Chosen c write_all range date (sort original))),
      )
