-- ===== src/Extract/Files.antt =====
-- Which files are extracted.
use pinenut.Prelude.{
  ◌≡◌, refl, sym, ap, List, [], ◌∷◌, ◌++◌, append_assoc, true, false, Bool-cases, ◌⊎◌, inl, inr,
  All, Sink,
}
use pinenut.Errors.{IoError}
use pinenut.Chrono.{Chrono}
use pinenut.Parse.Errors.{TimeRange}
use pinenut.Extract.{select}

module _ {ℓ} {A : Type ℓ} (P : A → Type 0) where
  All-snoc : (xs : List A) (x : A) → All P xs → P x → All P (xs ++ (x ∷ []))
  All-snoc [] x h p = (p, tt)
  All-snoc (y ∷ ys) x h p = (h.0, All-snoc ys x h.1 p)

  -- The elements behind the first.
  abbrev pub Later : List A → Type 0
  Later [] = Unit
  Later (x ∷ xs) = All P xs

  abbrev pub First : List A → Type 0
  First [] = ⊥
  First (x ∷ xs) = P x

  Later-snoc : (xs : List A) (x : A) → Later xs → P x → Later (xs ++ (x ∷ []))
  Later-snoc [] x h p = tt
  Later-snoc (y ∷ ys) x h p = All-snoc ys x h p

  First-snoc : (xs : List A) (x : A) → First xs → First (xs ++ (x ∷ []))
  First-snoc [] x h = absurd h
  First-snoc (y ∷ ys) x h = h

module _ (c : Chrono) {W : Type 0} (write_all : Sink W IoError) (range : TimeRange c.DateTime)
    {F : Type 0} (date : F → c.DateTime) where
  -- The file is dated at the end of the range or behind it, and at its start or before it.
  abbrev pub IsAfter : F → Type 0
  IsAfter f = c.leb range.1 (date f) ≡ true

  abbrev pub IsBefore : F → Type 0
  IsBefore f = c.leb (date f) range.0 ≡ true

  -- The files chosen are in a row: behind them are none or one that is dated behind the range, and
  -- before them none, or the first chosen is dated before the range; none but the first is.
  pub record Chosen (files chosen : List F) : Type 0 where
    pub dropped : List F
    pub rest : List F
    pub parts : dropped ++ (chosen ++ rest) ≡ files
    pub before_end : All (λ f. c.leb range.1 (date f) ≡ false) (dropped ++ chosen)
    pub behind : (rest ≡ []) ⊎ First IsAfter rest
    pub starts : (dropped ≡ []) ⊎ First IsBefore chosen
    pub within : Later (λ f. c.leb (date f) range.0 ≡ false) chosen

  loop-Chosen :
      (files dropped chosen : List F)
      → All (λ f. c.leb range.1 (date f) ≡ false) (dropped ++ chosen)
      → (dropped ≡ []) ⊎ First IsBefore chosen
      → Later (λ f. c.leb (date f) range.0 ≡ false) chosen
      → Chosen (dropped ++ (chosen ++ files)) (select c write_all range date chosen files)
  unfolding select
  loop-Chosen [] dropped chosen before_end starts within = record {
    dropped = dropped;
    rest = [];
    parts = refl;
    before_end = before_end;
    behind = inl refl;
    starts = starts;
    within = within;
  }
  loop-Chosen (f ∷ files) dropped chosen before_end starts within =
      elim (Bool-cases (c.leb range.1 (date f))) [
        | inl after ↦ rw after (record {
          dropped = dropped;
          rest = f ∷ files;
          parts = refl;
          before_end = before_end;
          behind = inr after;
          starts = starts;
          within = within;
        })
        | inr sooner ↦ elim (Bool-cases (c.leb (date f) range.0)) [
          | inl at_start ↦
              rw (sooner, at_start)
                (again (dropped ++ chosen) (f ∷ []) (append_assoc dropped chosen (f ∷ files)) (
                  loop-Chosen files (dropped ++ chosen) (f ∷ [])
                    (All-snoc (λ f. c.leb range.1 (date f) ≡ false) (dropped ++ chosen) f before_end
                      sooner)
                    (inr at_start) tt))
          | inr later ↦
              rw (sooner, later)
                (again dropped (chosen ++ (f ∷ []))
                  (ap (λ l. dropped ++ l) (append_assoc chosen (f ∷ []) files))
                  (loop-Chosen files dropped (chosen ++ (f ∷ []))
                    (rw (sym (append_assoc dropped chosen (f ∷ []))) (
                      All-snoc (λ f. c.leb range.1 (date f) ≡ false) (dropped ++ chosen) f
                        before_end sooner))
                    (started starts)
                    (Later-snoc (λ f. c.leb (date f) range.0 ≡ false) chosen f within later)))
        ]
      ]
    where
      again :
          (d h : List F)
          → d ++ (h ++ files) ≡ dropped ++ (chosen ++ (f ∷ files))
          → Chosen (d ++ (h ++ files)) (select c write_all range date h files)
          → Chosen (dropped ++ (chosen ++ (f ∷ files))) (select c write_all range date h files)
      again d h same r = rw (sym same) r

      started :
          (dropped ≡ []) ⊎ First IsBefore chosen
          → (dropped ≡ []) ⊎ First IsBefore (chosen ++ (f ∷ []))
      started (inl e) = inl e
      started (inr first) = inr (First-snoc IsBefore chosen f first)

  -- Of the files in the order given, extraction reads a row of neighbours: all of them are dated before
  -- the end of the range, and the next one, if there is one, is not; none but the first is dated at the
  -- start of the range or before it, and the first is if any file before it is left out.
  pub select-Chosen : (files : List F) → Chosen files (select c write_all range date [] files)
  select-Chosen files = loop-Chosen files [] [] tt (inl refl) tt
