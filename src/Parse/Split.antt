-- ===== src/Parse/Split.antt =====
-- A prefix of a stream of records: whole records and the beginning of one more.
use pinenut.Prelude.{
  ℕ, ◌≤◌, ◌<◌, ◌≡◌, refl, ap, sym, ◌∙◌, arith, List, [], ◌∷◌, ◌++◌, append_assoc, length, concat,
  map,
}
use native.Mathlib.Decide.{dec_lt}
use pinenut.Chrono.{Chrono}
use pinenut.Record.{Record}
use pinenut.Codec.Values.{record_bytes}

-- Two ways to cut one list: the longer front begins with the shorter.
module _ {ℓ} {A : Type ℓ} where
  pub append_cut :
      (us vs xs ys : List A)
      → us ++ vs ≡ xs ++ ys
      → length us ≤ length xs
      → (ws : List A) × (xs ≡ us ++ ws) × (vs ≡ ws ++ ys)
  append_cut [] vs xs ys e h = (xs, refl, e)
  append_cut (u ∷ us) vs [] ys e h = absurd (omega arith)
  append_cut (u ∷ us) vs (x ∷ xs) ys e h =
      let (ws, p, q) = append_cut us vs xs ys (cc) (omega arith) in (ws, cc (p), q)

module _ (c : Chrono) where
  unfoldable pub stream : List (Record c) → List ℕ
  stream rs = concat (map (record_bytes c) rs)

  -- The bytes held when those left over begin in the middle of the first record still to come.
  abbrev pub IsCut : List ℕ → List (Record c) → Type 0
  IsCut held [] = held ≡ []
  IsCut held (r ∷ rs) = length held < length (record_bytes c r)

  pub record Split (front back : List ℕ) (rs : List (Record c)) : Type 0 where
    pub whole : List (Record c)
    pub later : List (Record c)
    pub held : List ℕ
    pub records : rs ≡ whole ++ later
    pub bytes : front ≡ stream whole ++ held
    pub ahead : held ++ back ≡ stream later
    pub cut : IsCut held later

  pub split :
      (front back : List ℕ) (rs : List (Record c)) → front ++ back ≡ stream rs → Split front back rs
  unfolding stream
  split [] back [] e = record {
    whole = [];
    later = [];
    held = [];
    records = refl;
    bytes = refl;
    ahead = e;
    cut = refl;
  }
  split (x ∷ front) back [] e = cc
  split front back (r ∷ rs) e = elim (dec_lt (length front) (length (record_bytes c r))) [
    | yes p ↦ record {
      whole = [];
      later = r ∷ rs;
      held = front;
      records = refl;
      bytes = refl;
      ahead = e;
      cut = p;
    }
    | no p ↦
        let (ws, p', q) =
          append_cut (record_bytes c r) (stream rs) front back (sym e) (omega arith) in
        let rest = split ws back rs (sym q) in
        record {
          whole = r ∷ rest.whole;
          later = rest.later;
          held = rest.held;
          records = ap (λ t. r ∷ t) rest.records;
          bytes =
              p'
              ∙ ap (λ t. record_bytes c r ++ t) rest.bytes
              ∙ sym (append_assoc (record_bytes c r) _ _);
          ahead = rest.ahead;
          cut = rest.cut;
        }
  ]
