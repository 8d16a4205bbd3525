-- ===== src/Codec/Truncated.antt =====
-- A record that is cut short is always told from one that is damaged.
use pinenut.Prelude.{
  ℕ, ◌≡◌, ◌∙◌, sym, arith, List, [], ◌∷◌, ◌++◌, append-nil, length, length-append, ◌⊎◌, inl, inr,
  ap,
}
use pinenut.Prelude.{Result, ok, err, refl}
use pinenut.Chrono.{Chrono, IsChrono}
use pinenut.Record.{Record}
use pinenut.Codec.{DecodingError, unexpected_end, Decoder, decode_record}
use pinenut.Codec.Values.{IsRecord, IsSinceEpoch, record_bytes}
use pinenut.Codec.RoundTrip.{decode_record-bytes}
use pinenut.Codec.Stable.{Stable, IsEnd, decode_record-Stable}

abbrev pub RunsOut : {A : Type 0} → Decoder A → List ℕ → Type 0
RunsOut {A} m src = (n : ℕ) × (rest : List ℕ) × (m src ≡ (err (unexpected_end n), rest))

-- What a result can be.
pub End-cases : (e : DecodingError) → ((n : ℕ) × (e ≡ unexpected_end n)) ⊎ (¬ IsEnd e)
End-cases (unexpected_end n) = inl (n, refl)
End-cases _ = inr (λ h. h)

RunsOut-of_prefix :
    {A : Type 0} {m : Decoder A} {a : A}
    → Stable m
    → (front : List ℕ) (x : ℕ) (back : List ℕ) → m (front ++ (x ∷ back)) ≡ (ok a, [])
    → RunsOut m front
RunsOut-of_prefix {m = m} {a = a} st front x back whole = go (m front).0 (m front).1 refl
  where
    go : (r : Result DecodingError _) (s : List ℕ) → m front ≡ (r, s) → RunsOut m front
    go (ok b) s e =
        let rest : s ++ (x ∷ back) ≡ [] = cc (st.ok_more front (x ∷ back) e, whole) in
        absurd (omega (arith, ap length rest, length-append s (x ∷ back)))
    go (err d) s e = elim (End-cases d) [
      | inl (n, q) ↦ (n, s, e ∙ ap (λ d. (err d, s)) q)
      | inr q ↦ absurd (cc (st.err_more front (x ∷ back) q e, whole))
    ]

module _ {c : Chrono} (laws : IsChrono c) where
  open c use {timestamp}

  -- Every proper prefix of the bytes of a record that the source's types can hold, dated 1970 or later,
  -- runs out of input: there is no other error, and no record.
  pub decode_record-prefix :
      (r : Record c) (front : List ℕ) (x : ℕ) (back : List ℕ)
      → IsRecord c r
      → IsSinceEpoch (timestamp r.meta.datetime)
      → record_bytes c r ≡ front ++ (x ∷ back)
      → RunsOut (decode_record c) front
  decode_record-prefix r front x back h e cut =
      RunsOut-of_prefix (decode_record-Stable c) front x back (
        ap (decode_record c) (sym cut ∙ sym (append-nil (record_bytes c r)))
        ∙ decode_record-bytes laws r [] h e)
