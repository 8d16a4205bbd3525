-- ===== src/Runs/Extract/Listing.antt =====
-- The listing of a directory with two log files, sorted by insertion.
use pinenut.Prelude.{
  ℕ, ◌≡◌, refl, subst, List, [], ◌∷◌, Bool, true, false, if◌then◌else◌, Bool-cases, ◌⊎◌, inl, inr,
  All, ok,
}
use mathlib.Core.List.{Memᴰ}
use mathlib.Core.List.Memᴰ
use pinenut.Logfile.{name}
use pinenut.Logfile.Files.{Logfile, FileSystem}
use pinenut.Extract.Listing.Sorting.{IsSorted}
use pinenut.Extract.Listing.{IsSort, Selected, logfiles_of_range, logfiles_of_range-Selected}
use pinenut.Runs.Clock.{Moment, dusk, morning, noon, clock}
use pinenut.Runs.Io.{app, disk_files, Disk}
use pinenut.Runs.Extract.{collected, daytime}

module _ {A : Type 0} (before : A → A → Bool) where
  insert : A → List A → List A
  insert x [] = x ∷ []
  insert x (y ∷ ys) = let rest = insert x ys in if before x y then x ∷ (y ∷ ys) else y ∷ rest

  insertion_sort : List A → List A
  insertion_sort [] = []
  insertion_sort (x ∷ xs) = insert x (insertion_sort xs)

  insert-mem : {f x : A} (xs : List A) → Memᴰ f (x ∷ xs) → Memᴰ f (insert x xs)
  unfolding insert
  insert-mem [] m = m
  insert-mem {f} {x} (y ∷ ys) m = elim (Bool-cases (before x y)) [
    | inl e ↦ rw e m
    | inr e ↦ rw e (moved (insert-mem ys) (Memᴰ.cases_cons m))
  ]
    where
      later : (Memᴰ f (x ∷ ys) → Memᴰ f (insert x ys)) → Memᴰ f (y ∷ ys) → Memᴰ f (y ∷ insert x ys)
      later more (Memᴰ.head e) = Memᴰ.head e
      later more (Memᴰ.tail n) = Memᴰ.tail (more (Memᴰ.tail n))

      moved :
          (Memᴰ f (x ∷ ys) → Memᴰ f (insert x ys))
          → (f ≡ x) ⊎ Memᴰ f (y ∷ ys)
          → Memᴰ f (y ∷ insert x ys)
      moved more (inl e) = Memᴰ.tail (more (Memᴰ.head e))
      moved more (inr n) = later more n

  mem-insert : {f x : A} (xs : List A) → Memᴰ f (insert x xs) → Memᴰ f (x ∷ xs)
  unfolding insert
  mem-insert [] m = m
  mem-insert {f} {x} (y ∷ ys) m = elim (Bool-cases (before x y)) [
    | inl e ↦ subst (λ b. Memᴰ f (if b then x ∷ (y ∷ ys) else y ∷ insert x ys)) e m
    | inr e ↦
        moved (mem-insert ys)
          (subst (λ b. Memᴰ f (if b then x ∷ (y ∷ ys) else y ∷ insert x ys)) e m)
  ]
    where
      back : Memᴰ f (x ∷ ys) → Memᴰ f (x ∷ (y ∷ ys))
      back (Memᴰ.head e) = Memᴰ.head e
      back (Memᴰ.tail n) = Memᴰ.tail (Memᴰ.tail n)

      moved :
          (Memᴰ f (insert x ys) → Memᴰ f (x ∷ ys))
          → Memᴰ f (y ∷ insert x ys)
          → Memᴰ f (x ∷ (y ∷ ys))
      moved more (Memᴰ.head e) = Memᴰ.tail (Memᴰ.head e)
      moved more (Memᴰ.tail n) = back (more n)

  All-insert : (P : A → Type 0) (x : A) (xs : List A) → P x → All P xs → All P (insert x xs)
  unfolding insert
  All-insert P x [] p h = (p, tt)
  All-insert P x (y ∷ ys) p h = elim (Bool-cases (before x y)) [
    | inl e ↦ rw e (p, h)
    | inr e ↦ rw e (h.0, All-insert P x ys p h.1)
  ]

  module _ (either : (x y : A) → (before x y ≡ true) ⊎ (before y x ≡ true))
      (by_second : (x y z : A) → before x y ≡ true → before y z ≡ true → before x z ≡ true) where
    further :
        (x y : A) (ys : List A)
        → before x y ≡ true
        → All (λ z. before y z ≡ true) ys
        → All (λ z. before x z ≡ true) ys
    further x y [] e h = tt
    further x y (z ∷ zs) e h = (by_second x y z e h.0, further x y zs e h.1)

    insert-IsSorted : (x : A) (xs : List A) → IsSorted before xs → IsSorted before (insert x xs)
    unfolding insert
    insert-IsSorted x [] s = (tt, tt)
    insert-IsSorted x (y ∷ ys) s = elim (Bool-cases (before x y)) [
      | inl e ↦ rw e ((e, further x y ys e s.0), s)
      | inr e ↦ rw e (
        All-insert (λ z. before y z ≡ true) x ys (reversed e (either x y)) s.0,
        insert-IsSorted x ys s.1,
      )
    ]
      where
        reversed :
            before x y ≡ false → (before x y ≡ true) ⊎ (before y x ≡ true) → before y x ≡ true
        reversed e (inl h) = cc (e, h)
        reversed e (inr h) = h

    sort-IsSorted : (xs : List A) → IsSorted before (insertion_sort xs)
    unfolding insertion_sort
    sort-IsSorted [] = tt
    sort-IsSorted (x ∷ xs) = insert-IsSorted x (insertion_sort xs) (sort-IsSorted xs)

  sort-mem : {f : A} (xs : List A) → Memᴰ f xs → Memᴰ f (insertion_sort xs)
  unfolding insertion_sort
  sort-mem [] m = m
  sort-mem (x ∷ xs) (Memᴰ.head e) = insert-mem (insertion_sort xs) (Memᴰ.head e)
  sort-mem (x ∷ xs) (Memᴰ.tail m) = insert-mem (insertion_sort xs) (Memᴰ.tail (sort-mem xs m))

  mem-sort : {f : A} (xs : List A) → Memᴰ f (insertion_sort xs) → Memᴰ f xs
  unfolding insertion_sort
  mem-sort [] m = m
  mem-sort {f} (x ∷ xs) m = back (mem-sort xs) (mem-insert (insertion_sort xs) m)
    where
      back :
          (Memᴰ f (insertion_sort xs) → Memᴰ f xs)
          → Memᴰ f (x ∷ insertion_sort xs)
          → Memᴰ f (x ∷ xs)
      back more (Memᴰ.head e) = Memᴰ.head e
      back more (Memᴰ.tail n) = Memᴰ.tail (more n)

either : (s t : Moment) → (clock.leb s t ≡ true) ⊎ (clock.leb t s ≡ true)
either dusk dusk = inl refl
either dusk morning = inl refl
either dusk noon = inl refl
either morning dusk = inr refl
either morning morning = inl refl
either morning noon = inl refl
either noon dusk = inr refl
either noon morning = inr refl
either noon noon = inl refl

by_second : (s t u : Moment) → clock.leb s t ≡ true → clock.leb t u ≡ true → clock.leb s u ≡ true
by_second dusk dusk dusk h k = refl
by_second dusk dusk morning h k = refl
by_second dusk dusk noon h k = refl
by_second dusk morning dusk h k = refl
by_second dusk morning morning h k = refl
by_second dusk morning noon h k = refl
by_second dusk noon dusk h k = refl
by_second dusk noon morning h k = refl
by_second dusk noon noon h k = refl
by_second morning dusk dusk h k = h
by_second morning dusk morning h k = refl
by_second morning dusk noon h k = refl
by_second morning morning dusk h k = k
by_second morning morning morning h k = refl
by_second morning morning noon h k = refl
by_second morning noon dusk h k = k
by_second morning noon morning h k = refl
by_second morning noon noon h k = refl
by_second noon dusk dusk h k = h
by_second noon dusk morning h k = h
by_second noon dusk noon h k = refl
by_second noon morning dusk h k = h
by_second noon morning morning h k = h
by_second noon morning noon h k = refl
by_second noon noon dusk h k = k
by_second noon noon morning h k = k
by_second noon noon noon h k = refl

-- A directory that lists the log file of noon before that of the morning, and a file of another program.
abbrev entries : List (List ℕ)
entries = name clock app noon ∷ (98 ∷ []) ∷ name clock app morning ∷ []

abbrev listing : FileSystem (List ℕ) Disk
listing = record disk_files { read_dir = λ d. (ok entries, d) }

abbrev earlier : Logfile clock (List ℕ) → Logfile clock (List ℕ) → Bool
earlier f g = clock.leb f.datetime g.datetime

sort-IsSort : IsSort clock collected daytime listing app (insertion_sort earlier)
sort-IsSort = record {
  sorted =
      sort-IsSorted earlier (λ f g. either f.datetime g.datetime)
        (λ f g h. by_second f.datetime g.datetime h.datetime);
  keeps = sort-mem earlier;
  adds_none = mem-sort earlier;
}

logfiles_of_range-Selected_example :
    (chosen : List (Logfile clock (List ℕ))) × (logfiles_of_range clock collected daytime listing
        app
        (insertion_sort earlier)
        (λ n. [])
      ≡ (ok chosen, λ n. []))
    × Selected clock collected daytime listing app (insertion_sort earlier) entries chosen
logfiles_of_range-Selected_example =
    logfiles_of_range-Selected clock collected daytime listing app (insertion_sort earlier)
      sort-IsSort by_second entries (λ n. []) (λ n. []) refl
