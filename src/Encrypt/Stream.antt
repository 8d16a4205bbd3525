-- ===== src/Encrypt/Stream.antt =====
-- What the encryptor hands its sink, however its input is cut.
use pinenut.Prelude.{
  ℕ, zero, suc, ◌-◌, ◌*◌, ◌/◌, ◌≤◌, ◌<◌, ◌≡◌, refl, sym, ap, ap₂, subst, ◌∙◌, arith, List, [], ◌∷◌,
  ◌++◌, append_assoc, append-nil, length, length-append, length-take, length-drop, take, drop,
  take_all, drop_all, take-append-drop, min, concat, true, false, leb, ok, Exec, Sink,
  concat-append, Fault, ◌>>◌,
}
use pinenut.Errors.{CipherError}
use pinenut.Common.BytesBuf
use pinenut.Common.BytesBuf.{BytesBuf}
use pinenut.Codec.Writes.{sink_all}
use pinenut.Codec.Accumulate.{Gives, Gives-then}
use pinenut.Encrypt.Sinks.{holding, handled-Gives}
use pinenut.Common.Ends.{calls, concat-calls}
use pinenut.Prelude.{inl, inr}
use pinenut.Encrypt.{
  overwrite, Aes, IsAes, IsWhole, input, flush, handled, sink_bytes, encrypt_handle, encrypt_loop,
  encrypt,
}

module _ {aes : Aes} (laws : IsAes aes) {S E : Type 0} (sink : Sink S E)
    (of_error : CipherError → E) (cap : ℕ) where
  -- Nothing is encrypted to nothing.
  encrypt_nothing : aes.encrypt_blocks [] ≡ []
  encrypt_nothing = empty (aes.encrypt_blocks []) (laws.encrypt_length [] (omega arith))
    where
      empty : (xs : List ℕ) → length xs ≡ 0 → xs ≡ []
      empty [] h = refl
      empty (x ∷ xs) h = absurd (omega arith)

  -- What a step of the encryptor takes in behind `start`: the whole blocks that it encrypts and hands
  -- to the sink, and the rest, that it keeps.
  pub record Steps (start bytes : List ℕ) (m : Exec (BytesBuf × S) (Fault E) (Unit {0}))
      : Type 0 where
    pub whole : List ℕ
    pub left : List ℕ
    pub pieces : List (List ℕ)
    pub same : whole ++ left ≡ start ++ bytes
    pub blocks : IsWhole whole
    pub left_short : length left < 16
    pub out : concat pieces ≡ aes.encrypt_blocks whole
    pub gives :
        (s : S)
        → Gives sink cap left (sink_all sink pieces s) (m (holding aes sink of_error cap start, s))

  -- The blocks of two steps, one after the other.
  encrypt_two :
      (w1 w2 : List ℕ) (ps qs : List (List ℕ))
      → IsWhole w1
      → concat ps ≡ aes.encrypt_blocks w1
      → concat qs ≡ aes.encrypt_blocks w2
      → concat (ps ++ qs) ≡ aes.encrypt_blocks (w1 ++ w2)
  encrypt_two w1 w2 ps qs h p q =
      concat-append ps qs ∙ ap₂ (λ a b. a ++ b) p q ∙ sym (laws.encrypt-append w1 w2 h)

  Steps-then :
      {start a b : List ℕ} {m : Exec (BytesBuf × S) (Fault E) (Unit {0})}
      (n : Exec (BytesBuf × S) (Fault E) (Unit {0}))
      → (p : Steps start a m) → Steps p.left b n
      → Steps start (a ++ b) (m >> n)
  Steps-then {start} {a} {b} {m} n p q = record {
    whole = p.whole ++ q.whole;
    left = q.left;
    pieces = p.pieces ++ q.pieces;
    same =
        append_assoc p.whole q.whole q.left
        ∙ ap (λ t. p.whole ++ t) q.same
        ∙ sym (append_assoc p.whole p.left b)
        ∙ ap (λ t. t ++ b) p.same
        ∙ append_assoc start a b;
    blocks = omega (arith, length-append p.whole q.whole, p.blocks, q.blocks);
    left_short = q.left_short;
    out = encrypt_two p.whole q.whole p.pieces q.pieces p.blocks p.out q.out;
    gives = Gives-then sink cap start p.left q.left p.pieces q.pieces m n p.gives q.gives;
  }

  -- One call of `BytesBuf::sink` without padding.
  sink_bytes-Steps :
      (bs : List ℕ)
      → Steps bs [] (sink_bytes aes sink of_error false (encrypt_handle aes sink of_error))
  unfolding sink_bytes
  sink_bytes-Steps bs =
      let len = length bs / 16 * 16 in
      let size = length-take len bs in
      record {
        whole = take len bs;
        left = drop len bs;
        pieces = calls (aes.encrypt_blocks (take len bs));
        same = take-append-drop len bs ∙ sym (append-nil bs);
        blocks = omega (arith, size);
        left_short = omega (arith, length-drop len bs);
        out = concat-calls (aes.encrypt_blocks (take len bs));
        gives = λ s.
            handled-Gives aes sink of_error cap len bs (aes.encrypt_blocks (take len bs))
              (aes.encrypt_blocks (take len bs)) s (omega arith)
              (inl (omega (arith, size, laws.encrypt_length (take len bs) (omega (arith, size)))));
      }

  pub encrypt_loop-Steps :
      (fuel : ℕ) (start bytes : List ℕ)
      → 16 ≤ cap
      → length start < 16
      → length bytes ≤ fuel
      → Steps start bytes (encrypt_loop aes sink of_error fuel bytes)
  unfolding encrypt_loop BytesBuf.buffer
  encrypt_loop-Steps fuel start [] hc hs hb = record {
    whole = [];
    left = start;
    pieces = [];
    same = sym (append-nil start);
    blocks = omega arith;
    left_short = hs;
    out = sym (encrypt_nothing);
    gives = λ s. refl;
  }
  encrypt_loop-Steps zero start (x ∷ xs) hc hs hb = absurd (omega arith)
  encrypt_loop-Steps (suc fuel) start (x ∷ xs) hc hs hb =
      let n = min (length (x ∷ xs)) (cap - length start) in
      let filled = start ++ take n (x ∷ xs) in
      let one = sink_bytes-Steps filled in
      let rest = drop n (x ∷ xs) in
      let two =
        encrypt_loop-Steps fuel one.left rest hc one.left_short
          (omega (arith, length-drop n (x ∷ xs))) in
      let both = Steps-then (encrypt_loop aes sink of_error fuel rest) one two in
      record {
        whole = both.whole;
        left = both.left;
        pieces = both.pieces;
        same =
            both.same
            ∙ append_assoc start (take n (x ∷ xs)) rest
            ∙ ap (λ t. start ++ t) (take-append-drop n (x ∷ xs));
        blocks = both.blocks;
        left_short = both.left_short;
        out = both.out;
        gives = both.gives;
      }

  -- Inputs one after the other, and the flush that ends a chunk.
  abbrev pub encrypt_all : List (List ℕ) → Exec (BytesBuf × S) (Fault E) (Unit {0})
  encrypt_all [] = encrypt aes sink of_error flush
  encrypt_all (bytes ∷ inputs) = encrypt aes sink of_error (input bytes) >> encrypt_all inputs

  -- The sink is handed the encryption of the padded bytes `start ++ bytes`, in some pieces, up to its
  -- first error; the buffer is left empty unless the sink fails.
  pub record Encrypts (start bytes : List ℕ) (m : Exec (BytesBuf × S) (Fault E) (Unit {0}))
      : Type 0 where
    pub pieces : List (List ℕ)
    pub out : concat pieces ≡ aes.encrypt_blocks (aes.pad (start ++ bytes))
    pub gives :
        (s : S)
        → Gives sink cap [] (sink_all sink pieces s) (m (holding aes sink of_error cap start, s))

  pub flush-Encrypts :
      (start : List ℕ)
      → 32 ≤ cap
      → length start < 16
      → Encrypts start [] (encrypt aes sink of_error flush)
  unfolding encrypt sink_bytes
  flush-Encrypts start hc hs =
      let padded = aes.encrypt_blocks (aes.pad start) in
      let room : leb (length (aes.pad start)) cap ≡ true = ground (arith, laws.pad_short start) in
      let all = take_all (length start) start (omega arith) in
      let none_left = drop_all (length start) start (omega arith) in
      record {
        pieces = calls padded;
        out =
            concat-calls padded ∙ ap (λ l. aes.encrypt_blocks (aes.pad l)) (sym (append-nil start));
        gives = λ s.
            rw (all, room)
              (subst
                (λ left. Gives sink cap left (sink_all sink (calls padded) s) (
                  handled aes sink of_error (length start) (ok padded)
                    (overwrite aes sink of_error padded (holding aes sink of_error cap start), s)))
                none_left
                (handled-Gives aes sink of_error cap (length start) start padded padded s
                  (omega arith) (inr (omega arith))));
      }

  Encrypts-then :
      {start a b : List ℕ} {m : Exec (BytesBuf × S) (Fault E) (Unit {0})}
      (n : Exec (BytesBuf × S) (Fault E) (Unit {0}))
      → (p : Steps start a m) → Encrypts p.left b n
      → Encrypts start (a ++ b) (m >> n)
  Encrypts-then {start} {a} {b} {m} n p q = record {
    pieces = p.pieces ++ q.pieces;
    out =
        encrypt_two p.whole (aes.pad (p.left ++ b)) p.pieces q.pieces p.blocks p.out q.out
        ∙ ap aes.encrypt_blocks (
            sym (laws.pad-append p.whole (p.left ++ b) p.blocks)
            ∙ ap aes.pad (
                sym (append_assoc p.whole p.left b)
                ∙ ap (λ t. t ++ b) p.same
                ∙ append_assoc start a b));
    gives = Gives-then sink cap start p.left [] p.pieces q.pieces m n p.gives q.gives;
  }

  encrypt_all-from :
      (inputs : List (List ℕ)) (start : List ℕ)
      → 32 ≤ cap
      → length start < 16
      → Encrypts start (concat inputs) (encrypt_all inputs)
  unfolding encrypt
  encrypt_all-from [] start hc hs = flush-Encrypts start hc hs
  encrypt_all-from (bytes ∷ inputs) start hc hs =
      let one = encrypt_loop-Steps (length bytes) start bytes (omega arith) hs (omega arith) in
      Encrypts-then (encrypt_all inputs) one (encrypt_all-from inputs one.left hc one.left_short)

  -- However the bytes of a chunk are cut into inputs, an encryptor that starts with an empty buffer
  -- of at least 32 bytes ends, and hands its sink exactly the encryption of those bytes with their
  -- padding, in order, up to the first error of the sink; its buffer is left empty, ready for the next
  -- chunk, unless the sink fails. The cipher and the padding behave as their crates document.
  pub encrypt_all-Encrypts :
      (inputs : List (List ℕ)) → 32 ≤ cap → Encrypts [] (concat inputs) (encrypt_all inputs)
  encrypt_all-Encrypts inputs hc = encrypt_all-from inputs [] hc (omega arith)
