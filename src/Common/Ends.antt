-- ===== src/Common/Ends.antt =====
-- A step in front of a sink, which keeps a state of its own: how it ends, by how the calls of the sink
-- that it makes end.
use pinenut.Prelude.{
  ℕ, ◌≡◌, refl, List, append-nil, concat, [], ◌∷◌, ◌++◌, Result, ok, err, Exec, Sink, Fault, raised,
  continue, ◌>>◌,
}
use pinenut.Codec.Writes.{sink_all, sink_all-append}

-- The calls of a sink for one output, which is not handed on when it is empty.
abbrev pub calls : List ℕ → List (List ℕ)
calls [] = []
calls (x ∷ output) = (x ∷ output) ∷ []

pub concat-calls : (output : List ℕ) → concat (calls output) ≡ output
concat-calls [] = refl
concat-calls (x ∷ output) = append-nil (x ∷ output)

module _ {Z S E : Type 0} (sink : Sink S E) where
  -- When all calls succeed the step does, and leaves its own state `z`; otherwise it has the error of
  -- the sink.
  abbrev pub Ends : Z → Result E (Unit {0}) × S → Result (Fault E) (Unit {0}) × (Z × S) → Type 0
  Ends z (ok _, s) out = out ≡ (ok tt, (z, s))
  Ends z (err e, s) out = (out.0 ≡ err (raised e)) × (out.1.1 ≡ s)

  pub Ends-then :
      (start mid left : Z) (ps qs : List (List ℕ)) (m n : Exec (Z × S) (Fault E) (Unit {0}))
      → ((s : S) → Ends mid (sink_all sink ps s) (m (start, s)))
      → ((s : S) → Ends left (sink_all sink qs s) (n (mid, s)))
      → (s : S) → Ends left (sink_all sink (ps ++ qs) s) ((m >> n) (start, s))
  Ends-then start mid left ps qs m n p q s =
      rw (sink_all-append sink ps qs) (go (sink_all sink ps s) (p s))
    where
      go :
          (r : Result E (Unit {0}) × S)
          → Ends mid r (m (start, s))
          → Ends left
              (let (a, s') = r in continue a (λ _. sink_all sink qs) s')
              ((m >> n) (start, s))
      go (ok u, s') g = rw g (q s')
      go (err e, s') g = rw g.0 (refl, g.1)

  -- What a step does when the calls that it makes succeed.
  pub Ends-ok :
      (left : Z) (ps : List (List ℕ)) (m : Exec (Z × S) (Fault E) (Unit {0})) (st : Z × S)
      (s s' : S)
      → Ends left (sink_all sink ps s) (m st)
      → sink_all sink ps s ≡ (ok tt, s')
      → m st ≡ (ok tt, (left, s'))
  Ends-ok left ps m st s s' ends calls = rw calls at ends
