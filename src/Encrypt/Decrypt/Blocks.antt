-- ===== src/Encrypt/Decrypt/Blocks.antt =====
-- The steps of the decryptor before the end of the encrypted bytes.
use pinenut.Prelude.{
  ℕ, zero, suc, ◌-◌, ◌*◌, ◌/◌, ◌%◌, ◌≤◌, ◌<◌, ◌≡◌, refl, sym, ap, ap₂, ◌∙◌, arith, List, [], ◌∷◌,
  ◌++◌, append_assoc, length, length-append, length-take, length-drop, take, drop, take-append,
  drop-append, take-append_le, drop-append_le, take-append-drop, min, concat, false, inl, Exec,
  Sink, concat-append, Fault, ◌>>◌,
}
use pinenut.Errors.{CipherError}
use pinenut.Common.BytesBuf
use pinenut.Common.BytesBuf.{BytesBuf}
use pinenut.Codec.Writes.{sink_all}
use pinenut.Codec.Accumulate.{Gives, Gives-then}
use pinenut.Encrypt.{Aes, IsAes, IsWhole, sink_bytes, decrypt_handle, decrypt_loop}
use pinenut.Encrypt.Sinks.{holding, handled-Gives}
use pinenut.Common.Ends.{calls, concat-calls}

module _ {aes : Aes} (laws : IsAes aes) {S E : Type 0} (sink : Sink S E)
    (of_error : CipherError → E) (cap : ℕ) where
  -- The encryption of padded bytes, from a block that is not the last.
  pub whole_pad : (z : List ℕ) → length (aes.encrypt_blocks (aes.pad z)) ≡ length (aes.pad z)
  whole_pad z = laws.encrypt_length (aes.pad z) (laws.pad-IsWhole z)

  enc_split :
      (k : ℕ) (z : List ℕ)
      → k % 16 ≡ 0
      → k ≤ length z
      → aes.encrypt_blocks (aes.pad z)
        ≡ aes.encrypt_blocks (take k z) ++ aes.encrypt_blocks (aes.pad (drop k z))
  enc_split k z h small =
      let whole : IsWhole (take k z) = omega (arith, length-take k z) in
      ap (λ l. aes.encrypt_blocks (aes.pad l)) (sym (take-append-drop k z))
      ∙ ap aes.encrypt_blocks (laws.pad-append (take k z) (drop k z) whole)
      ∙ laws.encrypt-append (take k z) (aes.pad (drop k z)) whole

  enc_take :
      (k : ℕ) (z : List ℕ) → k % 16 ≡ 0 → k ≤ length z → length (aes.encrypt_blocks (take k z)) ≡ k
  enc_take k z h small =
      let whole : IsWhole (take k z) = omega (arith, length-take k z) in
      omega (arith, laws.encrypt_length (take k z) whole, length-take k z)

  -- What a step of the decryptor does to bytes that go on with `rest` to the encryption of `z`: a first
  -- part of `z` goes to the sink, and what is kept goes on to the encryption of the other.
  pub record Steps (start bytes rest z : List ℕ) (m : Exec (BytesBuf × S) (Fault E) (Unit {0}))
      : Type 0 where
    pub front : List ℕ
    pub back : List ℕ
    pub left : List ℕ
    pub pieces : List (List ℕ)
    pub split : front ++ back ≡ z
    pub ahead : left ++ rest ≡ aes.encrypt_blocks (aes.pad back)
    pub left_short : length left < 16
    pub out : concat pieces ≡ front
    pub gives :
        (s : S)
        → Gives sink cap left (sink_all sink pieces s) (m (holding aes sink of_error cap start, s))

  Steps-then :
      {start a b rest z : List ℕ} {m : Exec (BytesBuf × S) (Fault E) (Unit {0})}
      (n : Exec (BytesBuf × S) (Fault E) (Unit {0}))
      → (p : Steps start a (b ++ rest) z m) → Steps p.left b rest p.back n
      → Steps start (a ++ b) rest z (m >> n)
  Steps-then {start} {a} {b} {rest} {z} {m} n p q = record {
    front = p.front ++ q.front;
    back = q.back;
    left = q.left;
    pieces = p.pieces ++ q.pieces;
    split = append_assoc p.front q.front q.back ∙ ap (λ t. p.front ++ t) q.split ∙ p.split;
    ahead = q.ahead;
    left_short = q.left_short;
    out = concat-append p.pieces q.pieces ∙ ap₂ (λ a b. a ++ b) p.out q.out;
    gives = Gives-then sink cap start p.left q.left p.pieces q.pieces m n p.gives q.gives;
  }

  -- One call of `BytesBuf::sink` before the end.
  pub sink_bytes-Steps :
      (bs rest z : List ℕ)
      → bs ++ rest ≡ aes.encrypt_blocks (aes.pad z)
      → 1 ≤ length rest
      → Steps bs [] rest z
          (sink_bytes aes sink of_error false (decrypt_handle aes sink of_error false))
  unfolding sink_bytes
  sink_bytes-Steps bs rest z same more =
      let len = length bs / 16 * 16 in
      let total = ap length same ∙ whole_pad z in
      let small : len ≤ length z =
        omega (arith, total, length-append bs rest, laws.pad-IsWhole z, laws.pad_short z) in
      let whole : len % 16 ≡ 0 = omega arith in
      let part = enc_split len z whole small in
      let size = enc_take len z whole small in
      let got : take len bs ≡ aes.encrypt_blocks (take len z) =
        sym (take-append_le len bs rest (omega arith))
        ∙ ap (take len) (same ∙ part)
        ∙ take-append len _ _ size in
      let plain : aes.decrypt_blocks (take len bs) ≡ take len z =
        ap aes.decrypt_blocks got
        ∙ laws.decrypt-encrypt (take len z) (omega (arith, length-take len z)) in
      record {
        front = take len z;
        back = drop len z;
        left = drop len bs;
        pieces = calls (take len z);
        split = take-append-drop len z;
        ahead =
            sym (drop-append_le len bs rest (omega arith))
            ∙ ap (drop len) (same ∙ part)
            ∙ drop-append len _ _ size;
        left_short = omega (arith, length-drop len bs);
        out = concat-calls (take len z);
        gives = λ s. rw plain (
            handled-Gives aes sink of_error cap len bs (take len z) (take len z) s (omega arith)
              (inl (omega (arith, length-take len z))));
      }

  pub loop-Steps :
      (fuel : ℕ) (start bytes rest z : List ℕ)
      → 16 ≤ cap
      → length start < 16
      → length bytes ≤ fuel
      → start ++ (bytes ++ rest) ≡ aes.encrypt_blocks (aes.pad z)
      → 1 ≤ length rest
      → Steps start bytes rest z (decrypt_loop aes sink of_error fuel false bytes)
  unfolding decrypt_loop BytesBuf.buffer
  loop-Steps fuel start [] rest z hc hs hb same more = record {
    front = [];
    back = z;
    left = start;
    pieces = [];
    split = refl;
    ahead = same;
    left_short = hs;
    out = refl;
    gives = λ s. refl;
  }
  loop-Steps zero start (x ∷ xs) rest z hc hs hb same more = absurd (omega arith)
  loop-Steps (suc fuel) start (x ∷ xs) rest z hc hs hb same more =
      let n = min (length (x ∷ xs)) (cap - length start) in
      let filled = start ++ take n (x ∷ xs) in
      let later = drop n (x ∷ xs) in
      let one =
        sink_bytes-Steps filled (later ++ rest) z
          (append_assoc start (take n (x ∷ xs)) (later ++ rest)
            ∙ ap (λ t. start ++ t)
                (sym (append_assoc (take n (x ∷ xs)) later rest)
                  ∙ ap (λ t. t ++ rest) (take-append-drop n (x ∷ xs)))
            ∙ same)
          (omega (arith, length-append later rest)) in
      let two =
        loop-Steps fuel one.left later rest one.back hc one.left_short
          (omega (arith, length-drop n (x ∷ xs))) one.ahead more in
      let both = Steps-then (decrypt_loop aes sink of_error fuel false later) one two in
      record {
        front = both.front;
        back = both.back;
        left = both.left;
        pieces = both.pieces;
        split = both.split;
        ahead = both.ahead;
        left_short = both.left_short;
        out = both.out;
        gives = both.gives;
      }
