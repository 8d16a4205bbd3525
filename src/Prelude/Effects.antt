-- ===== src/Prelude/Effects.antt =====
-- Fallible code over a mutable state. What was done before an error stays done, so the state comes
-- back beside the error too.
use Prim.Native.Nat.{ℕ}
use mathlib.Core.Path.{◌≡◌, refl, ap}
use mathlib.Core.Logic.{◌⊎◌, inl, inr}
use mathlib.Core.List.{List}

pub data Result {ℓ κ} (E : Type ℓ) (A : Type κ) : Type (ℓ ⊔ κ) where
  ok : A → Result E A
  err : E → Result E A

abbrev pub Exec {ℓ} : Type ℓ → Type ℓ → Type ℓ → Type ℓ
Exec S E A = S → Result E A × S

module _ {ℓ} {S E A : Type ℓ} where
  abbrev pub pure : A → Exec S E A
  pure a s = (ok a, s)

  abbrev pub raise : E → Exec S E A
  raise e s = (err e, s)

  abbrev pub lift : Result E A → Exec S E A
  lift r s = (r, s)

module _ {ℓ} {S E A B : Type ℓ} where
  abbrev pub continue : Result E A → (A → Exec S E B) → Exec S E B
  continue (ok a) f s = f a s
  continue (err e) f s = (err e, s)

  infixl 5 ◌>>=◌ ◌>>◌
  abbrev pub ◌>>=◌ : Exec S E A → (A → Exec S E B) → Exec S E B
  ◌>>=◌ m f s = let (r, s') = m s in continue r f s'

  abbrev pub ◌>>◌ : Exec S E A → Exec S E B → Exec S E B
  m >> n = m >>= λ _. n

module _ {ℓ} {S E : Type ℓ} where
  continue-pure : (r : Result E (Unit {ℓ})) (s : S) → continue r (λ _. pure tt) s ≡ (r, s)
  continue-pure (ok a) s = refl
  continue-pure (err e) s = refl

  pub bind-pure : (m : Exec S E (Unit {ℓ})) (s : S) → (m >> pure tt) s ≡ m s
  bind-pure m s = let (r, s') = m s in continue-pure r s'

module _ {ℓ} {S E A B C : Type ℓ} where
  continue_assoc :
      (r : Result E A) (f : A → Exec S E B) (g : B → Exec S E C) (s : S)
      → (continue r f >>= g) s ≡ continue r (λ a. f a >>= g) s
  continue_assoc (ok a) f g s = refl
  continue_assoc (err e) f g s = refl

  pub bind_assoc :
      (m : Exec S E A) (f : A → Exec S E B) (g : B → Exec S E C) (s : S)
      → ((m >>= f) >>= g) s ≡ (m >>= λ a. f a >>= g) s
  bind_assoc m f g s = let (r, s') = m s in continue_assoc r f g s'

-- `Result::map_err`
module _ {ℓ} {E F A : Type ℓ} where
  abbrev pub map_err : (E → F) → Result E A → Result F A
  map_err f (ok a) = ok a
  map_err f (err e) = err (f e)

-- A target for bytes (`common::Sink`): one call of `sink`, as a step on the state that it mutates.
abbrev pub Sink : Type 0 → Type 0 → Type 0
Sink S E = List ℕ → Exec S E (Unit {0})

-- What a chain that succeeds, or fails, has done.
module _ {ℓ} {S E A B : Type ℓ} where
  continue-ok :
      (r : Result E A) (f : A → Exec S E B) (s : S) {b : B} {t : S}
      → continue r f s ≡ (ok b, t)
      → (a : A) × (r ≡ ok a) × (f a s ≡ (ok b, t))
  continue-ok (ok a) f s h = (a, refl, h)
  continue-ok (err e) f s h = absurd (cc)

  continue-err :
      (r : Result E A) (f : A → Exec S E B) (s : S) {e : E} {t : S}
      → continue r f s ≡ (err e, t)
      → ((r ≡ err e) × (s ≡ t)) ⊎ ((a : A) × (r ≡ ok a) × (f a s ≡ (err e, t)))
  continue-err (ok a) f s h = inr (a, refl, h)
  continue-err (err x) f s h = inl (cc, cc)

  pub >>=-eq-ok :
      (m : Exec S E A) (f : A → Exec S E B) (s : S) {b : B} {t : S}
      → (m >>= f) s ≡ (ok b, t)
      → (a : A) × (s' : S) × (m s ≡ (ok a, s')) × (f a s' ≡ (ok b, t))
  >>=-eq-ok m f s h =
      let (r, s') = m s in let (a, e, h') = continue-ok r f s' h in (a, s', ap (λ r. (r, s')) e, h')

  pub >>=-eq-err :
      (m : Exec S E A) (f : A → Exec S E B) (s : S) {e : E} {t : S}
      → (m >>= f) s ≡ (err e, t)
      → (m s ≡ (err e, t)) ⊎ ((a : A) × (s' : S) × (m s ≡ (ok a, s')) × (f a s' ≡ (err e, t)))
  >>=-eq-err m f s h =
      let (r, s') = m s in
      elim (continue-err r f s' h) [
        | inl (p, q) ↦ inl (λ i. (p i, q i))
        | inr (a, p, h') ↦ inr (a, s', ap (λ r. (r, s')) p, h')
      ]

-- The failure of a loop on fuel: out of fuel, or an error of the program.
pub data Fault {ℓ} (E : Type ℓ) : Type ℓ where
  stuck : Fault E
  raised : E → Fault E
