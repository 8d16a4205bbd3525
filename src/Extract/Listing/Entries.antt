-- ===== src/Extract/Listing/Entries.antt =====
-- `Logfile::logfiles` of pinenut/src/logfile.rs: the log files of a domain in a directory.
use pinenut.Prelude.{ℕ, ◌≡◌, refl, sym, ap, ◌∙◌, List, [], ◌∷◌, Option, none, some}
use mathlib.Core.List.{Memᴰ}
use mathlib.Core.List.Memᴰ
use pinenut.Chrono.{Chrono}
use pinenut.Logfile.{from_entry}
use pinenut.Logfile.Files.{FileSystem, Logfile, read_mode, new_logfile, logfile_at, logfiles_in}

module _ (c : Chrono) {F D : Type 0} (fs : FileSystem F D) (identifier : List ℕ) where
  -- A log file of an entry of the directory.
  pub record IsListed (entries : List (List ℕ)) (f : Logfile c F) : Type 0 where
    pub entry : List ℕ
    pub is_entry : Memᴰ entry entries
    pub named : from_entry c identifier entry ≡ some f.datetime
    pub to_read : f.mode ≡ read_mode
    pub unopened : f.lazy_file ≡ none

  pub logfiles_in-IsListed :
      (entries : List (List ℕ)) (f : Logfile c F)
      → Memᴰ f (logfiles_in c fs identifier read_mode entries)
      → IsListed entries f
  unfolding logfiles_in new_logfile
  logfiles_in-IsListed [] f m = absurd (Memᴰ.not-nil m)
  logfiles_in-IsListed (entry ∷ entries) f m =
      go (from_entry c identifier entry) refl m (logfiles_in-IsListed entries f)
    where
      later : IsListed entries f → IsListed (entry ∷ entries) f
      later h = record {
        entry = h.entry;
        is_entry = Memᴰ.tail h.is_entry;
        named = h.named;
        to_read = h.to_read;
        unopened = h.unopened;
      }

      go :
          (t : Option c.DateTime)
          → from_entry c identifier entry ≡ t
          → Memᴰ f (
              logfile_at c fs identifier read_mode t
                (logfiles_in c fs identifier read_mode entries))
          → (Memᴰ f (logfiles_in c fs identifier read_mode entries) → IsListed entries f)
          → IsListed (entry ∷ entries) f
      go none e m rest = later (rest m)
      go (some t) e (Memᴰ.head q) rest = record {
        entry = entry;
        is_entry = Memᴰ.head refl;
        named = e ∙ ap some (sym (ap (λ g. g.datetime) q));
        to_read = ap (λ g. g.mode) q;
        unopened = ap (λ g. g.lazy_file) q;
      }
      go (some t) e (Memᴰ.tail n) rest = later (rest n)

  pub mem-logfiles_in :
      (entries : List (List ℕ)) (entry : List ℕ) (t : c.DateTime)
      → Memᴰ entry entries
      → from_entry c identifier entry ≡ some t
      → Memᴰ
          (record { datetime = t; mode = read_mode; lazy_file = none })
          (logfiles_in c fs identifier read_mode entries)
  unfolding logfiles_in new_logfile
  mem-logfiles_in [] entry t m e = absurd (Memᴰ.not-nil m)
  mem-logfiles_in (x ∷ entries) entry t (Memᴰ.head q) e =
      rw (ap (from_entry c identifier) (sym q) ∙ e) (Memᴰ.head refl)
  mem-logfiles_in (x ∷ entries) entry t (Memᴰ.tail n) e =
      go (from_entry c identifier x) (mem-logfiles_in entries entry t n e)
    where
      go :
          (u : Option c.DateTime) {f : Logfile c F} {fs' : List (Logfile c F)}
          → Memᴰ f fs'
          → Memᴰ f (logfile_at c fs identifier read_mode u fs')
      go none m = m
      go (some u) m = Memᴰ.tail m
