-- ===== src/Chunk/Reader/Payload.antt =====
-- Reading a payload, however the system cuts and interrupts the reads and whatever the sink does.
use pinenut.Prelude.{
  ℕ, zero, suc, ◌+◌, ◌-◌, ◌≤◌, ◌≡◌, refl, sym, ap, ◌∙◌, arith, List, [], ◌∷◌, ◌++◌, length,
  length-take, length-drop, take, drop, drop-append, take-append-drop, take-append_le,
  drop-append_le, min, All, ◌⊎◌, inl, inr, concat, subst, Option, none, some, Result, ok, err,
  map_err, Exec, Sink, Fault, raised,
}
use pinenut.Errors.{IoError}
use pinenut.Codec.Writes.{sink_all}
use pinenut.Chunk.Reader.{
  ReadError, Event, File, read, seek, sunk, payload_step, read_payload_loop, read_payload,
}
use pinenut.Chunk.Reader.Headers.{Mild, read-cases}

-- The outcome of a seek that succeeds.
abbrev pub Succeeds : Option IoError → Type 0
Succeeds none = Unit
Succeeds (some e) = ⊥

module _ {S E : Type 0} (sink : Sink S E) (of_error : ReadError → E) (buffer_len : ℕ) where
  -- The sink failed, and so did the seek behind the payload.
  abbrev pub IsStranded : List (Option IoError) → Result E (Unit {0}) → Type 0
  IsStranded seeks r =
      (x : E) × (r ≡ err x)
      × ((e : IoError) × (later : List (Option IoError)) × (seeks ≡ some e ∷ later))

  -- How reading ends when the sink's calls end in `r`: with the same result and state of the sink and,
  -- after an error of the sink too, with the file behind the payload, unless the first of the coming seeks
  -- fails. No other seek is made.
  pub record Ends (seeks : List (Option IoError)) (more : List ℕ) (r : Result E (Unit {0}) × S)
      (out : Result (Fault E) (Unit {0}) × (S × File)) : Type 0 where
    pub result : out.0 ≡ map_err raised r.0
    pub state : out.1.0 ≡ r.1
    pub ahead : (out.1.1.ahead ≡ more) ⊎ IsStranded seeks r.0
    pub sought : (out.1.1.seeks ≡ seeks) ⊎ (out.1.1.seeks ≡ drop 1 seeks)
    pub mild : All Mild out.1.1.events

  pub record Sinks (seeks : List (Option IoError)) (payload more : List ℕ)
      (m : S → Result (Fault E) (Unit {0}) × (S × File)) : Type 0 where
    pub pieces : List (List ℕ)
    pub same : concat pieces ≡ payload
    pub short : All (λ p. length p ≤ buffer_len) pieces
    pub full : All (λ p. 1 ≤ length p) pieces
    pub ends : (s : S) → Ends seeks more (sink_all sink pieces s) (m s)

  pub at_next :
      (seeks : List (Option IoError)) (more : List ℕ) (r : Result E (Unit {0}) × S)
      (out : Result (Fault E) (Unit {0}) × (S × File))
      → Ends seeks more r out
      → r.0 ≡ ok tt
      → out.1.1.ahead ≡ more
  at_next seeks more r out h fine = elim h.ahead [
    | inl e ↦ e
    | inr stranded ↦ absurd (cc (fine, stranded.1))
  ]

  pub seeks-Ends :
      (seeks : List (Option IoError)) (more : List ℕ) (r : Result E (Unit {0}) × S)
      (out : Result (Fault E) (Unit {0}) × (S × File))
      → Ends seeks more r out
      → All Succeeds seeks
      → (out.1.1.ahead ≡ more) × All Succeeds out.1.1.seeks
  seeks-Ends seeks more r out h succeed = (behind h.ahead succeed, later h.sought)
    where
      behind :
          (out.1.1.ahead ≡ more) ⊎ IsStranded seeks r.0 → All Succeeds seeks → out.1.1.ahead ≡ more
      behind (inl e) s = e
      behind (inr (x, q, (f, more_seeks, p))) s = absurd (subst (All Succeeds) p s).0

      tail : (l : List (Option IoError)) → All Succeeds l → All Succeeds (drop 1 l)
      tail [] s = tt
      tail (a ∷ l) s = s.1

      later : (out.1.1.seeks ≡ seeks) ⊎ (out.1.1.seeks ≡ drop 1 seeks) → All Succeeds out.1.1.seeks
      later (inl e) = subst (All Succeeds) (sym e) succeed
      later (inr e) = subst (All Succeeds) (sym e) (tail seeks succeed)

  -- After the seek of a sink that failed.
  seek-Ends :
      (n : ℕ) (more : List ℕ) (file : File) (x : E) (s : S)
      → drop n file.ahead ≡ more
      → All Mild file.events
      → Ends file.seeks more (err x, s) (err (raised x), (s, (seek n file).1))
  unfolding seek
  seek-Ends n more file x s e m = go file.seeks refl
    where
      go :
          (seeks : List (Option IoError))
          → file.seeks ≡ seeks
          → Ends file.seeks more (err x, s) (err (raised x), (s, (seek n file).1))
      go [] q =
          rw q (record { result = refl; state = refl; ahead = inl e; sought = inl refl; mild = m })
      go (none ∷ seeks) q =
          rw q (record { result = refl; state = refl; ahead = inl e; sought = inr refl; mild = m })
      go (some f ∷ seeks) q = rw q (record {
        result = refl;
        state = refl;
        ahead = inr (x, refl, (f, seeks, refl));
        sought = inr refl;
        mild = m;
      })

  sunk-Ends :
      (more : List ℕ) (pieces : List (List ℕ)) (next : Exec (S × File) (Fault E) (Unit {0}))
      (remaining : ℕ) (file : File)
      → drop remaining file.ahead ≡ more
      → All Mild file.events
      → ((s : S) → Ends file.seeks more (sink_all sink pieces s) (next (s, file)))
      → (piece : List ℕ) (s : S)
      → Ends file.seeks more
          (sink_all sink (piece ∷ pieces) s)
          (sunk sink of_error buffer_len next remaining file (sink piece s))
  unfolding sunk
  sunk-Ends more pieces next remaining file e m ends piece s =
      go (sink piece s).0 (sink piece s).1 refl
    where
      go :
          (r : Result E (Unit {0})) (s' : S)
          → sink piece s ≡ (r, s')
          → Ends file.seeks more
              (sink_all sink (piece ∷ pieces) s)
              (sunk sink of_error buffer_len next remaining file (sink piece s))
      go (ok u) s' q = rw q (ends s')
      go (err x) s' q = rw q (seek-Ends remaining more file x s' e m)

  Ends-step :
      (fuel n rest b : ℕ) (more bytes bs : List ℕ) (pieces : List (List ℕ)) (file next : File)
      (s : S)
      → read (min buffer_len (suc n)) file ≡ (ok bytes, next)
      → bytes ≡ b ∷ bs
      → suc n - length (b ∷ bs) ≡ rest
      → Ends file.seeks more (sink_all sink ((b ∷ bs) ∷ pieces) s) (
          sunk sink of_error buffer_len
            (read_payload_loop sink of_error buffer_len fuel rest)
            rest
            next
            (sink (b ∷ bs) s))
      → Ends file.seeks more
          (sink_all sink ((b ∷ bs) ∷ pieces) s)
          (read_payload_loop sink of_error buffer_len (suc fuel) (suc n) (s, file))
  unfolding read_payload_loop payload_step
  Ends-step fuel n rest b more bytes bs pieces file next s returns took size ends =
      rw (returns, took, size) ends

  loop-Sinks :
      (fuel : ℕ) (payload more : List ℕ) (file : File)
      → 1 ≤ buffer_len
      → file.ahead ≡ payload ++ more
      → length payload + length file.events + 1 ≤ fuel
      → All Mild file.events
      → Sinks file.seeks payload more
          (λ s. read_payload_loop sink of_error buffer_len fuel (length payload) (s, file))
  unfolding read_payload_loop payload_step
  loop-Sinks zero payload more file hb ahead h m = absurd (omega arith)
  loop-Sinks (suc fuel) [] more file hb ahead h m = record {
    pieces = [];
    same = refl;
    short = tt;
    full = tt;
    ends =
        λ s. record { result = refl; state = refl; ahead = inl ahead; sought = inl refl; mild = m };
  }
  loop-Sinks (suc fuel) (p ∷ payload) more file hb ahead h m =
      elim (read-cases (min buffer_len (suc (length payload))) file (omega arith) m) [
        | inl i ↦
            let r =
              loop-Sinks fuel (p ∷ payload) more i.after hb (i.same_ahead ∙ ahead)
                (omega (arith, i.fewer)) i.mild in
            record {
              pieces = r.pieces;
              same = r.same;
              short = r.short;
              full = r.full;
              ends = λ s. rw i.returns (
                  subst
                    (λ q. Ends q more (sink_all sink r.pieces s) (
                      read_payload_loop sink of_error buffer_len fuel (length (p ∷ payload))
                        (s, i.after)))
                    i.same_seeks (r.ends s));
            }
        | inr g ↦
            let fits : g.k ≤ length (p ∷ payload) = omega (arith, g.no_more) in
            go g.k g.events g.returns g.some_bytes (omega (arith, g.no_more)) g.no_longer g.mild
              fits (ap (take g.k) ahead ∙ take-append_le g.k (p ∷ payload) more fits)
              (ap (drop g.k) ahead ∙ drop-append_le g.k (p ∷ payload) more fits)
              (λ payload file. loop-Sinks fuel payload more file hb)
      ]
    where
      go :
          (k : ℕ) (events : List Event)
          → read (min buffer_len (suc (length payload))) file
            ≡ (ok (take k file.ahead), record file { ahead = drop k file.ahead; events = events })
          → 1 ≤ k
          → k ≤ buffer_len
          → length events ≤ length file.events
          → All Mild events
          → k ≤ length (p ∷ payload)
          → take k file.ahead ≡ take k (p ∷ payload)
          → drop k file.ahead ≡ drop k (p ∷ payload) ++ more
          → ((payload : List ℕ) (file : File)
              → file.ahead ≡ payload ++ more
              → length payload + length file.events + 1 ≤ fuel
              → All Mild file.events
              → Sinks file.seeks payload more
                  (λ s. read_payload_loop sink of_error buffer_len fuel (length payload) (s, file)))
          → Sinks file.seeks (p ∷ payload) more (λ s.
            read_payload_loop sink of_error buffer_len (suc fuel) (length (p ∷ payload)) (s, file))
      go zero events returns pos small le mild fits took left again = absurd (omega arith)
      go (suc k) events returns pos small le mild fits took left again =
          let next : File = record file { ahead = drop (suc k) file.ahead; events = events } in
          let piece = p ∷ take k payload in
          let size : suc (length payload) - length piece ≡ length (drop k payload) =
            omega (arith, length-take k payload, length-drop k payload) in
          let r = again (drop k payload) next left (omega (arith, length-drop k payload)) mild in
          record {
            pieces = piece ∷ r.pieces;
            same = ap (λ l. piece ++ l) r.same ∙ ap (λ l. p ∷ l) (take-append-drop k payload);
            short = (omega (arith, length-take k payload), r.short);
            full = (omega arith, r.full);
            ends = λ s.
                Ends-step fuel (length payload) (length (drop k payload)) p more _ (take k payload)
                  r.pieces file next s returns took size
                  (sunk-Ends more r.pieces
                    (read_payload_loop sink of_error buffer_len fuel (length (drop k payload)))
                    (length (drop k payload)) next
                    (ap (drop (length (drop k payload))) left
                      ∙ drop-append _ (drop k payload) more refl)
                    mild r.ends piece s);
          }

  pub read_payload-Sinks :
      (payload more : List ℕ) (file : File)
      → 1 ≤ buffer_len
      → file.ahead ≡ payload ++ more
      → All Mild file.events
      → Sinks file.seeks payload more
          (λ s. read_payload sink of_error buffer_len (length payload) (s, file))
  unfolding read_payload
  read_payload-Sinks payload more file hb ahead mild =
      loop-Sinks (length payload + length file.events + 1) payload more file hb ahead (omega arith)
        mild
