-- ===== src/Codec/Accumulate.antt =====
-- `AccumulationEncoder` of pinenut/src/codec.rs: encoded bytes are collected in a buffer and go on to
-- the sink when it is full, and at the end.
use pinenut.Prelude.{
  ℕ, zero, suc, ◌+◌, ◌-◌, ◌≤◌, ◌<◌, ◌≡◌, refl, ap, sym, ◌∙◌, arith, List, [], ◌∷◌, ◌++◌,
  append_assoc, append-nil, min, length, take, drop, take-append-drop, length-append, length-take,
  length-drop, concat, All, ◌⊎◌, inl, inr,
}
use pinenut.Prelude.{concat-append}
use pinenut.Prelude.{Result, ok, err, Exec, Sink, Fault, stuck, raised, ◌>>◌, continue}
use pinenut.Common.BytesBuf
use pinenut.Common.BytesBuf.{BytesBuf}
use pinenut.Chrono.{Chrono, IsChrono}
use pinenut.Record.{Record}
use pinenut.Codec.{encode_record}
use pinenut.Codec.Values.{IsRecord, record_bytes, record_writes}
use pinenut.Common.Ends.{Ends, Ends-then}
use pinenut.Codec.Writes.{sink_all, encode_record-writes}

module _ {S E : Type 0} (sink : Sink S E) where
  unfoldable pub after_flush :
      Exec (BytesBuf × S) (Fault E) (Unit {0})
      → BytesBuf
      → Result E (Unit {0}) × S
      → Result (Fault E) (Unit {0}) × (BytesBuf × S)
  unfolding BytesBuf.clear
  after_flush next b (ok _, s) = next (BytesBuf.clear b, s)
  after_flush next b (err e, s) = (err (raised e), (b, s))

  unfoldable pub after_fill :
      Exec (BytesBuf × S) (Fault E) (Unit {0}) → List ℕ → Exec (BytesBuf × S) (Fault E) (Unit {0})
  unfolding after_flush
  after_fill next [] st = (ok tt, st)
  after_fill next (x ∷ xs) (b, s) = after_flush next b (sink b.bytes s)

  -- The closure that `encode` hands to the value: its loop, on fuel.
  unfoldable pub accumulate : ℕ → List ℕ → Exec (BytesBuf × S) (Fault E) (Unit {0})
  unfolding after_fill BytesBuf.buffer
  accumulate zero bytes st = (err stuck, st)
  accumulate (suc fuel) bytes (b, s) =
      let (buffered, b') = BytesBuf.buffer bytes b in
      let rest = drop buffered bytes in after_fill (accumulate fuel rest) rest (b', s)

  unfoldable pub flush : Exec (BytesBuf × S) (Fault E) (Unit {0})
  unfolding after_flush
  flush (b, s) = after_flush (λ st. (ok tt, st)) b (sink b.bytes s)

  -- One round for each byte and one more are enough.
  unfoldable pub encode :
      (Sink (BytesBuf × S) (Fault E) → Exec (BytesBuf × S) (Fault E) (Unit {0}))
      → Exec (BytesBuf × S) (Fault E) (Unit {0})
  unfolding accumulate flush
  encode value = do value (λ bytes. accumulate (length bytes + 1) bytes); flush

  -- `out` is what is left in the buffer and the sink when the sink's calls end in `r`.
  abbrev pub Gives :
      ℕ → List ℕ → Result E (Unit {0}) × S → Result (Fault E) (Unit {0}) × (BytesBuf × S) → Type 0
  Gives cap left = Ends sink (record { capacity = cap; bytes = left })

  module _ (cap : ℕ) where
    abbrev pub holding : List ℕ → BytesBuf
    holding bytes = record { capacity = cap; bytes = bytes }

    pub Gives-then :
        (start mid left : List ℕ) (ps qs : List (List ℕ))
        (m n : Exec (BytesBuf × S) (Fault E) (Unit {0}))
        → ((s : S) → Gives cap mid (sink_all sink ps s) (m (holding start, s)))
        → ((s : S) → Gives cap left (sink_all sink qs s) (n (holding mid, s)))
        → (s : S) → Gives cap left (sink_all sink (ps ++ qs) s) ((m >> n) (holding start, s))
    Gives-then start mid left = Ends-then sink (holding start) (holding mid) (holding left)

    -- A step of the buffer before the sink: the full buffers that it hands on, and what it keeps.
    record Steps (start input : List ℕ) (m : Exec (BytesBuf × S) (Fault E) (Unit {0}))
        : Type 0 where
      full : List (List ℕ)
      left : List ℕ
      same : concat full ++ left ≡ start ++ input
      all_full : All (λ p. length p ≡ cap) full
      left_fits : length left ≤ cap
      gives : (s : S) → Gives cap left (sink_all sink full s) (m (holding start, s))

    All-append :
        (P : List ℕ → Type 0) (ps qs : List (List ℕ)) → All P ps → All P qs → All P (ps ++ qs)
    All-append P [] qs hp hq = hq
    All-append P (p ∷ ps) qs hp hq = (hp.0, All-append P ps qs hp.1 hq)

    Steps-then :
        {start a b : List ℕ} {m : Exec (BytesBuf × S) (Fault E) (Unit {0})}
        (n : Exec (BytesBuf × S) (Fault E) (Unit {0}))
        → (p : Steps start a m) → Steps p.left b n
        → Steps start (a ++ b) (m >> n)
    Steps-then {start} {a} {b} {m} n p q = record {
      full = p.full ++ q.full;
      left = q.left;
      same = rw (concat-append, append_assoc, q.same, ← append_assoc, p.same, append_assoc);
      all_full = All-append _ p.full q.full p.all_full q.all_full;
      left_fits = q.left_fits;
      gives = Gives-then start p.left q.left p.full q.full m n p.gives q.gives;
    }

    Gives-flush :
        (left : List ℕ) (ps : List (List ℕ)) (next : Exec (BytesBuf × S) (Fault E) (Unit {0}))
        (b : BytesBuf)
        → b.capacity ≡ cap
        → ((s : S) → Gives cap left (sink_all sink ps s) (next (holding [], s)))
        → (s : S)
        → Gives cap left (sink_all sink (b.bytes ∷ ps) s) (after_flush next b (sink b.bytes s))
    unfolding after_flush
    Gives-flush left ps next b e g s = go (sink b.bytes s)
      where
        go :
            (r : Result E (Unit {0}) × S)
            → Gives cap left
                (let (a, s') = r in continue a (λ _. sink_all sink ps) s')
                (after_flush next b r)
        go (ok u, s') = rw e (g s')
        go (err x, s') = (refl, refl)

    -- What fits of `bytes` behind `start`.
    abbrev room : List ℕ → List ℕ → ℕ
    room start bytes = min (length bytes) (cap - length start)

    full-Steps :
        (fuel : ℕ) (start bytes : List ℕ) (x : ℕ) (xs : List ℕ)
        → drop (room start bytes) bytes ≡ x ∷ xs
        → length (start ++ take (room start bytes) bytes) ≡ cap
        → Steps [] (x ∷ xs) (accumulate fuel (x ∷ xs))
        → Steps start bytes (accumulate (suc fuel) bytes)
    unfolding accumulate
    full-Steps fuel start bytes x xs e size rec =
        let filled = start ++ take (room start bytes) bytes in
        record {
          full = filled ∷ rec.full;
          left = rec.left;
          same =
              append_assoc filled (concat rec.full) rec.left
              ∙ ap (λ t. filled ++ t) (rec.same ∙ sym e)
              ∙ append_assoc start (take (room start bytes) bytes) (drop (room start bytes) bytes)
              ∙ ap (λ t. start ++ t) (take-append-drop (room start bytes) bytes);
          all_full = (size, rec.all_full);
          left_fits = rec.left_fits;
          gives = λ s. rw e (
              Gives-flush rec.left rec.full (accumulate fuel (x ∷ xs)) (holding filled) refl
                rec.gives s);
        }

    accumulate-Steps :
        (fuel : ℕ) (start bytes : List ℕ)
        → 0 < cap
        → length start ≤ cap
        → 1 ≤ fuel
        → length bytes ≤ fuel
        → (length start < cap) ⊎ (length bytes + 1 ≤ fuel)
        → Steps start bytes (accumulate fuel bytes)
    unfolding accumulate
    accumulate-Steps zero start bytes hc hs h1 hb hf = absurd (omega arith)
    accumulate-Steps (suc fuel) start bytes hc hs h1 hb hf =
        go (λ more h p. accumulate-Steps fuel [] more hc (omega arith) h p (inl hc)) (drop n bytes)
          refl
      where
        n : ℕ
        n = room start bytes

        go :
            ((more : List ℕ) → 1 ≤ fuel → length more ≤ fuel → Steps [] more (accumulate fuel more))
            → (rest : List ℕ) → drop n bytes ≡ rest
            → Steps start bytes (accumulate (suc fuel) bytes)
        go again [] e = record {
          full = [];
          left = start ++ take n bytes;
          same =
              ap (λ t. start ++ t)
                (rw (← append-nil (take n bytes), ← e) (take-append-drop n bytes));
          all_full = tt;
          left_fits = omega (arith, length-append start (take n bytes), length-take n bytes);
          gives = λ s. rw e;
        }
        go again (x ∷ xs) e =
            let size : length (start ++ take n bytes) ≡ cap = omega (
              arith,
              length-append start (take n bytes),
              length-take n bytes,
              length-drop n bytes,
              ap length e,
            ) in
            full-Steps fuel start bytes x xs e size (
              again (x ∷ xs) (omega (arith, length-drop n bytes, ap length e))
                (omega (arith, length-drop n bytes, ap length e)))

    closure : Sink (BytesBuf × S) (Fault E)
    closure bytes = accumulate (length bytes + 1) bytes

    sink_all-Steps :
        (ws : List (List ℕ)) (start : List ℕ)
        → 0 < cap
        → length start ≤ cap
        → Steps start (concat ws) (sink_all closure ws)
    unfolding closure
    sink_all-Steps [] start hc hs = record {
      full = [];
      left = start;
      same = sym (append-nil start);
      all_full = tt;
      left_fits = hs;
      gives = λ s. refl;
    }
    sink_all-Steps (w ∷ ws) start hc hs =
        let first =
          accumulate-Steps (length w + 1) start w hc hs (omega arith) (omega arith)
            (inr (omega arith)) in
        Steps-then (sink_all closure ws) first (sink_all-Steps ws first.left hc first.left_fits)

    -- A value that makes the calls `ws` reaches the sink as its bytes behind those of the buffer, cut
    -- into full buffers and one last piece; the buffer ends up empty, unless the sink fails.
    pub record Delivers (start input : List ℕ) (m : Exec (BytesBuf × S) (Fault E) (Unit {0}))
        : Type 0 where
      pub full : List (List ℕ)
      pub last : List ℕ
      pub same : concat full ++ last ≡ start ++ input
      pub all_full : All (λ p. length p ≡ cap) full
      pub last_fits : length last ≤ cap
      pub gives :
          (s : S) → Gives cap [] (sink_all sink (full ++ (last ∷ [])) s) (m (holding start, s))

    flush-Gives :
        (left : List ℕ) (s : S)
        → Gives cap [] (sink_all sink (left ∷ []) s) (flush (holding left, s))
    unfolding flush
    flush-Gives left s = Gives-flush [] [] (λ st. (ok tt, st)) (holding left) refl (λ t. refl) s

    encode-Delivers :
        (value : Sink (BytesBuf × S) (Fault E) → Exec (BytesBuf × S) (Fault E) (Unit {0}))
        (ws : List (List ℕ)) (start : List ℕ)
        → 0 < cap
        → length start ≤ cap
        → ((st : BytesBuf × S) → value closure st ≡ sink_all closure ws st)
        → Delivers start (concat ws) (encode value)
    unfolding encode closure
    encode-Delivers value ws start hc hs calls =
        let steps = sink_all-Steps ws start hc hs in
        record {
          full = steps.full;
          last = steps.left;
          same = steps.same;
          all_full = steps.all_full;
          last_fits = steps.left_fits;
          gives = λ s. rw (calls (holding start, s)) (
              Gives-then start steps.left [] steps.full (steps.left ∷ []) (sink_all closure ws)
                flush steps.gives (flush-Gives steps.left) s);
        }

module _ {c : Chrono} (laws : IsChrono c) {S E : Type 0} (sink : Sink S E) where
  -- Encoding a record that the source's types can hold, over a buffer that has a positive capacity
  -- and holds no more than it, ends and hands the sink what the buffer held followed by the bytes of
  -- the record, in pieces that are full buffers up to the last. The buffer is left empty, unless the
  -- sink fails: then its error is returned.
  pub encode_record-Delivers :
      (r : Record c) (b : BytesBuf)
      → IsRecord c r
      → 0 < b.capacity
      → BytesBuf.IsWithin b
      → Delivers sink b.capacity b.bytes
          (record_bytes c r)
          (encode sink (λ inner. encode_record c inner r))
  encode_record-Delivers r b h hc hs =
      encode-Delivers sink b.capacity (λ inner. encode_record c inner r) (record_writes c r) b.bytes
        hc hs (encode_record-writes laws _ r h)
