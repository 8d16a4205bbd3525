-- ===== src/Encrypt/Decrypt.antt =====
-- The decryptor undoes the encryptor, however the encrypted bytes are cut.
pub mod Blocks
use pinenut.Prelude.{
  ℕ, zero, suc, ◌-◌, ◌*◌, ◌/◌, ◌%◌, ◌≤◌, ◌<◌, ◌≡◌, refl, sym, ap, ap₂, subst, ◌∙◌, arith, List, [],
  ◌∷◌, ◌++◌, append_assoc, append-nil, length, length-append, length-take, length-drop, take, drop,
  take_all, drop_all, take-append, drop-append, take-append_le, drop-append_le, take-append-drop,
  min, concat, true, false, ◌==◌, inl, inr, Bool-cases, some, ok, Exec, Sink, concat-append, Fault,
  ◌>>◌, pure, All,
}
use pinenut.Errors.{CipherError}
use pinenut.Common.BytesBuf
use pinenut.Common.BytesBuf.{BytesBuf}
use pinenut.Codec.Writes.{sink_all}
use pinenut.Codec.Accumulate.{Gives, Gives-then}
use pinenut.Encrypt.{
  Aes, IsAes, IsWhole, handled, overwrite, sink_bytes, decrypt_handle, decrypt_loop, decrypt,
}
use pinenut.Encrypt.Sinks.{holding, handled-Gives}
use pinenut.Common.Ends.{calls, concat-calls}
use pinenut.Encrypt.Decrypt.Blocks.{whole_pad, sink_bytes-Steps, loop-Steps, Steps}

module _ {aes : Aes} (laws : IsAes aes) {S E : Type 0} (sink : Sink S E)
    (of_error : CipherError → E) (cap : ℕ) where
  -- The rest `z` goes to the sink, and the buffer is left empty, unless the sink fails.
  pub record Decrypts (start z : List ℕ) (m : Exec (BytesBuf × S) (Fault E) (Unit {0}))
      : Type 0 where
    pub pieces : List (List ℕ)
    pub out : concat pieces ≡ z
    pub gives :
        (s : S)
        → Gives sink cap [] (sink_all sink pieces s) (m (holding aes sink of_error cap start, s))

  Decrypts-then :
      {start a rest z : List ℕ} {m : Exec (BytesBuf × S) (Fault E) (Unit {0})}
      (n : Exec (BytesBuf × S) (Fault E) (Unit {0}))
      → (p : Steps laws sink of_error cap start a rest z m) → Decrypts p.left p.back n
      → Decrypts start z (m >> n)
  Decrypts-then {start} {a} {rest} {z} {m} n p q = record {
    pieces = p.pieces ++ q.pieces;
    out = concat-append p.pieces q.pieces ∙ ap₂ (λ a b. a ++ b) p.out q.out ∙ p.split;
    gives = Gives-then sink cap start p.left [] p.pieces q.pieces m n p.gives q.gives;
  }

  -- The last call of `BytesBuf::sink`, which removes the padding.
  last-Decrypts :
      (bs z : List ℕ)
      → bs ≡ aes.encrypt_blocks (aes.pad z)
      → Decrypts bs z (sink_bytes aes sink of_error true (decrypt_handle aes sink of_error true))
  unfolding sink_bytes
  last-Decrypts bs z same =
      let all = take_all (length bs) bs (omega arith) in
      let none_left = drop_all (length bs) bs (omega arith) in
      let whole : (length bs % 16 == 0) ≡ true =
        ground (arith, ap length same, whole_pad laws sink of_error cap z, laws.pad-IsWhole z) in
      let plain : aes.unpad (aes.decrypt_blocks bs) ≡ some z =
        ap (λ l. aes.unpad (aes.decrypt_blocks l)) same
        ∙ ap aes.unpad (laws.decrypt-encrypt (aes.pad z) (laws.pad-IsWhole z))
        ∙ laws.unpad-pad z in
      record {
        pieces = calls z;
        out = concat-calls z;
        gives = λ s.
            rw (all, whole, plain)
              (subst
                (λ left. Gives sink cap left (sink_all sink (calls z) s) (
                  handled aes sink of_error (length bs) (ok z) (
                    overwrite aes sink of_error (aes.decrypt_blocks bs)
                        (holding aes sink of_error cap bs),
                    s,
                  )))
                none_left
                (handled-Gives aes sink of_error cap (length bs) bs (aes.decrypt_blocks bs) z s
                  (omega arith) (inr (omega arith))));
      }

  Decrypts-done :
      {start z : List ℕ} {m : Exec (BytesBuf × S) (Fault E) (Unit {0})}
      → Decrypts start z m
      → Decrypts start z (m >> pure tt)
  Decrypts-done {start} {z} {m} p = record {
    pieces = p.pieces ++ [];
    out = concat-append p.pieces [] ∙ append-nil (concat p.pieces) ∙ p.out;
    gives = Gives-then sink cap start [] [] p.pieces [] m (pure tt) p.gives (λ s. refl);
  }

  loop-Decrypts :
      (fuel : ℕ) (start bytes z : List ℕ)
      → 16 ≤ cap
      → length start < 16
      → length bytes ≤ fuel
      → 1 ≤ length bytes
      → start ++ bytes ≡ aes.encrypt_blocks (aes.pad z)
      → Decrypts start z (decrypt_loop aes sink of_error fuel true bytes)
  unfolding decrypt_loop BytesBuf.buffer
  loop-Decrypts fuel start [] z hc hs hb pos same = absurd (omega arith)
  loop-Decrypts zero start (x ∷ xs) z hc hs hb pos same = absurd (omega arith)
  loop-Decrypts (suc fuel) start (x ∷ xs) z hc hs hb pos same =
      let n = min (length (x ∷ xs)) (cap - length start) in
      let filled = start ++ take n (x ∷ xs) in
      let later = drop n (x ∷ xs) in
      let joined : filled ++ later ≡ aes.encrypt_blocks (aes.pad z) =
        append_assoc start (take n (x ∷ xs)) later
        ∙ ap (λ t. start ++ t) (take-append-drop n (x ∷ xs))
        ∙ same in
      elim (Bool-cases (n == length (x ∷ xs))) [
        | inl last ↦
            let none_left : later ≡ [] = drop_all n (x ∷ xs) (ground (arith, last)) in
            let p = Decrypts-done (
              last-Decrypts filled z
                (sym (append-nil filled) ∙ ap (λ t. filled ++ t) (sym none_left) ∙ joined)) in
            record { pieces = p.pieces; out = p.out; gives = λ s. rw (last, none_left) (p.gives s) }
        | inr go_on ↦
            let more : 1 ≤ length later = ground (arith, go_on, length-drop n (x ∷ xs)) in
            let one = sink_bytes-Steps laws sink of_error cap filled later z joined more in
            let two =
              loop-Decrypts fuel one.left later one.back hc one.left_short
                (omega (arith, length-drop n (x ∷ xs))) more one.ahead in
            let p = Decrypts-then (decrypt_loop aes sink of_error fuel true later) one two in
            record { pieces = p.pieces; out = p.out; gives = λ s. rw go_on (p.gives s) }
      ]

  -- A chunk's payload as `chunk_sink` decrypts it: the end is reached with the last piece.
  abbrev pub decrypt_all : List (List ℕ) → Exec (BytesBuf × S) (Fault E) (Unit {0})
  decrypt_all [] = pure tt
  decrypt_all (p ∷ []) = decrypt aes sink of_error true p
  decrypt_all (p ∷ (q ∷ ps)) = decrypt aes sink of_error false p >> decrypt_all (q ∷ ps)

  pieces-Decrypts :
      (pieces : List (List ℕ)) (start z : List ℕ)
      → 16 ≤ cap
      → length start < 16
      → All (λ p. 1 ≤ length p) pieces
      → start ++ concat pieces ≡ aes.encrypt_blocks (aes.pad z)
      → Decrypts start z (decrypt_all pieces)
  unfolding decrypt
  pieces-Decrypts [] start z hc hs full same = absurd (
      omega (
        arith,
        hs,
        ap length same,
        length-append start [],
        whole_pad laws sink of_error cap z,
        laws.pad-IsWhole z,
        laws.pad_longer z,
      ))
  pieces-Decrypts (p ∷ []) start z hc hs full same =
      loop-Decrypts (length p) start p z hc hs (omega arith) full.0
        (ap (λ t. start ++ t) (sym (append-nil p)) ∙ same)
  pieces-Decrypts (p ∷ (q ∷ ps)) start z hc hs full same =
      let rest = concat (q ∷ ps) in
      let more : 1 ≤ length rest = omega (arith, full.1.0, length-append q (concat ps)) in
      let one =
        loop-Steps laws sink of_error cap (length p) start p rest z hc hs (omega arith) same more in
      Decrypts-then (decrypt_all (q ∷ ps)) one
        (pieces-Decrypts (q ∷ ps) one.left one.back hc one.left_short full.1 one.ahead)

  -- The decryptor undoes the encryptor: if the pieces of a payload, none of them empty, are together
  -- the encryption of the padded bytes `plain`, then a decryptor that starts with an empty buffer of at
  -- least 16 bytes ends, and hands its sink exactly `plain`, in some pieces, up to the first error of
  -- the sink; its buffer is left empty unless the sink fails. The cipher and the padding behave as
  -- their crates document.
  pub decrypt_all-Decrypts :
      (pieces : List (List ℕ)) (plain : List ℕ)
      → 16 ≤ cap
      → All (λ p. 1 ≤ length p) pieces
      → concat pieces ≡ aes.encrypt_blocks (aes.pad plain)
      → Decrypts [] plain (decrypt_all pieces)
  decrypt_all-Decrypts pieces plain hc full same =
      pieces-Decrypts pieces [] plain hc (omega arith) full same
