-- ===== src/Extract/Listing/Sorting.antt =====
-- Lists in order, for the log files that extraction sorts by date.
use pinenut.Prelude.{◌≡◌, sym, subst, List, [], ◌∷◌, ◌++◌, Bool, true, All}
use mathlib.Core.List.{Memᴰ}
use mathlib.Core.List.Memᴰ

pub All-at : {A : Type 0} (P : A → Type 0) {x : A} {xs : List A} → Memᴰ x xs → All P xs → P x
All-at P (Memᴰ.head e) h = subst P (sym e) h.0
All-at P (Memᴰ.tail m) h = All-at P m h.1

module _ {A : Type 0} (before : A → A → Bool) where
  -- Every element is before all that follow it.
  abbrev pub IsSorted : List A → Type 0
  IsSorted [] = Unit
  IsSorted (x ∷ xs) = All (λ y. before x y ≡ true) xs × IsSorted xs

  All-front : (P : A → Type 0) (xs ys : List A) → All P (xs ++ ys) → All P xs
  All-front P [] ys h = tt
  All-front P (x ∷ xs) ys h = (h.0, All-front P xs ys h.1)

  pub IsSorted-front : (xs ys : List A) → IsSorted (xs ++ ys) → IsSorted xs
  IsSorted-front [] ys h = tt
  IsSorted-front (x ∷ xs) ys h =
      (All-front (λ y. before x y ≡ true) xs ys h.0, IsSorted-front xs ys h.1)

  pub IsSorted-back : (xs ys : List A) → IsSorted (xs ++ ys) → IsSorted ys
  IsSorted-back [] ys h = h
  IsSorted-back (x ∷ xs) ys h = IsSorted-back xs ys h.1

  pub across :
      (xs ys : List A) {a b : A} → IsSorted (xs ++ ys) → Memᴰ a xs → Memᴰ b ys → before a b ≡ true
  across [] ys h n m = absurd (Memᴰ.not-nil n)
  across (x ∷ xs) ys {a} {b} h (Memᴰ.head e) m =
      subst (λ t. before t b ≡ true) (sym e)
        (All-at (λ y. before x y ≡ true) (Memᴰ.append_right xs m) h.0)
  across (x ∷ xs) ys h (Memᴰ.tail n) m = across xs ys h.1 n m
