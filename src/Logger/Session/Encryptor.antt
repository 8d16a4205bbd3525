-- ===== src/Logger/Session/Encryptor.antt =====
-- The encryptor in front of the chunk, between two calls: what it has encrypted is in the chunk and
-- the rest in its buffer.
use pinenut.Prelude.{
  ℕ, ◌≤◌, ◌<◌, ◌≡◌, refl, sym, ap, ap₂, ◌∙◌, arith, List, [], ◌∷◌, ◌++◌, append_assoc, append-nil,
  length, length-append, concat, Bool, true, false, ok, Fault, raised, map_err, subst,
}
use pinenut.Chrono.{Chrono}
use pinenut.Common.BytesBuf.{BytesBuf}
use pinenut.Common.Ends.{Ends-ok}
use pinenut.Codec.Writes.{sink_all}
use pinenut.Encrypt.{Aes, IsAes, IsWhole, flush, encrypt, encrypt_optional, passed, encrypt_loop}
use pinenut.Encrypt.Sinks.{holding}
use pinenut.Encrypt.Stream.{encrypt_loop-Steps, flush-Encrypts}
use pinenut.Chunk.{Chunk, capacity}
use pinenut.Chunk.Write.{IsChunk, contents}
use pinenut.Logger.{LoggerError, Compress, encrypt_error, to_chunk, to_encryptor}
use pinenut.Logger.Session.Stored.{fixed, to_chunk-Stores, sink_all-Stores}

module _ {aes : Aes} (laws : IsAes aes) (cap : ℕ) where
  abbrev pub buffering : List ℕ → BytesBuf
  buffering bytes = record { capacity = cap; bytes = bytes }

  -- The first blocks of `out` are encrypted.
  pub record Blocks (out : List ℕ) (e : BytesBuf) (done : List ℕ) : Type 0 where
    pub whole : List ℕ
    pub left : List ℕ
    pub buffer : e ≡ buffering left
    pub same : whole ++ left ≡ out
    pub blocks : IsWhole whole
    pub short : length left < 16
    pub encrypted : done ≡ aes.encrypt_blocks whole

  abbrev pub Sealing : Bool → List ℕ → BytesBuf → List ℕ → Type 0
  Sealing true out e done = Blocks out e done
  Sealing false out e done = (e ≡ buffering []) × (done ≡ out)

  -- The payload of a chunk.
  abbrev pub sealed_by : Bool → List ℕ → List ℕ
  sealed_by true frame = aes.encrypt_blocks (aes.pad frame)
  sealed_by false frame = frame

  -- `out` has been handed to the encryptor.
  pub record Handed (has_key : Bool) (out : List ℕ) (st : BytesBuf × Chunk) : Type 0 where
    pub valid : IsChunk st.1
    pub seals : Sealing has_key out st.0 (contents st.1)

  -- At the start of a chunk.
  pub Handed-nil :
      (has_key : Bool) (k : Chunk)
      → IsChunk k
      → contents k ≡ []
      → Handed has_key [] (buffering [], k)
  Handed-nil true k valid none_yet = record {
    valid = valid;
    seals = record {
      whole = [];
      left = [];
      buffer = refl;
      same = refl;
      blocks = omega arith;
      short = omega arith;
      encrypted =
          none_yet ∙ sym (empty (aes.encrypt_blocks []) (laws.encrypt_length [] (omega arith)));
    };
  }
    where
      empty : (xs : List ℕ) → length xs ≡ 0 → xs ≡ []
      empty [] h = refl
      empty (x ∷ xs) h = absurd (omega arith)
  Handed-nil false k valid none_yet = record { valid = valid; seals = (refl, none_yet) }

  pub record Same (before after : Chunk) : Type 0 where
    pub same_capacity : capacity after ≡ capacity before
    pub same_fixed : fixed after.header ≡ fixed before.header

  pub Same-then : (k m n : Chunk) → Same k m → Same m n → Same k n
  Same-then k m n p q = record {
    same_capacity = q.same_capacity ∙ p.same_capacity;
    same_fixed = q.same_fixed ∙ p.same_fixed;
  }

  -- A step succeeds, and `ends` is what it makes of the end date.
  pub record Took (ends : List ℕ → List ℕ) (has_key : Bool) (out : List ℕ)
      (before after : BytesBuf × Chunk) : Type 0 where
    pub holds : Handed has_key out after
    pub same : Same before.1 after.1
    pub ended : after.1.header.end_ ≡ ends before.1.header.end_

  module _ (c : Chrono) {Z : Type 0}
      (compress_op : Compress Z (BytesBuf × Chunk) (Fault LoggerError)) (room : 32 ≤ cap) where
    to_encryptor-Took :
        (has_key : Bool) (out bytes : List ℕ) (st : BytesBuf × Chunk)
        → Handed has_key out st
        → length (out ++ bytes) ≤ capacity st.1
        → (st' : BytesBuf × Chunk) × (to_encryptor c aes has_key compress_op bytes st
            ≡ (ok tt, st'))
          × Took (λ e. e) has_key (out ++ bytes) st st'
    unfolding to_encryptor encrypt_optional encrypt passed
    to_encryptor-Took true out bytes (e, k) h fits =
        let b = h.seals in
        let s =
          encrypt_loop-Steps laws to_chunk encrypt_error cap (length bytes) b.left bytes
            (omega arith) b.short (omega arith) in
        let same : (b.whole ++ s.whole) ++ s.left ≡ out ++ bytes =
          append_assoc b.whole s.whole s.left
          ∙ ap (λ t. b.whole ++ t) s.same
          ∙ sym (append_assoc b.whole b.left bytes)
          ∙ ap (λ t. t ++ bytes) b.same in
        let (k', runs, stores) = sink_all-Stores s.pieces k h.valid (
          omega (
            arith,
            ap length b.encrypted,
            ap length s.out,
            laws.encrypt_length b.whole b.blocks,
            laws.encrypt_length s.whole s.blocks,
            ap length same,
            length-append (b.whole ++ s.whole) s.left,
            length-append b.whole s.whole,
          )) in
        let e' = holding aes to_chunk encrypt_error cap s.left in
        (
          (e', k'),
          rw b.buffer (
              Ends-ok to_chunk e' s.pieces
                (encrypt_loop aes to_chunk encrypt_error (length bytes) bytes) (buffering b.left, k)
                k k' (s.gives k) runs),
          record {
            holds = record {
              valid = stores.valid;
              seals = record {
                whole = b.whole ++ s.whole;
                left = s.left;
                buffer = refl;
                same = same;
                blocks = omega (arith, length-append b.whole s.whole, b.blocks, s.blocks);
                short = s.left_short;
                encrypted =
                    stores.written
                    ∙ ap₂ (λ x y. x ++ y) b.encrypted s.out
                    ∙ sym (laws.encrypt-append b.whole s.whole b.blocks);
              };
            };
            same = record { same_capacity = stores.same_capacity; same_fixed = stores.same_fixed };
            ended = stores.same_end;
          },
        )
    to_encryptor-Took false out bytes (e, k) h fits =
        let (k', runs, stores) =
          to_chunk-Stores bytes k h.valid
            (omega (arith, ap length h.seals.1, length-append out bytes)) in
        (
          (e, k'),
          ap (λ r. (map_err raised r.0, (e, r.1))) runs,
          record {
            holds = record {
              valid = stores.valid;
              seals = (h.seals.0, stores.written ∙ ap (λ t. t ++ bytes) h.seals.1);
            };
            same = record { same_capacity = stores.same_capacity; same_fixed = stores.same_fixed };
            ended = stores.same_end;
          },
        )

    pub sink_all-Took :
        (has_key : Bool) (pieces : List (List ℕ)) (out : List ℕ) (st : BytesBuf × Chunk)
        → Handed has_key out st
        → length (out ++ concat pieces) ≤ capacity st.1
        → (st' : BytesBuf × Chunk) × (sink_all (to_encryptor c aes has_key compress_op) pieces st
            ≡ (ok tt, st'))
          × Took (λ e. e) has_key (out ++ concat pieces) st st'
    sink_all-Took has_key [] out st h fits = (
      st,
      refl,
      record {
        holds = subst (λ o. Handed has_key o st) (sym (append-nil out)) h;
        same = record { same_capacity = refl; same_fixed = refl };
        ended = refl;
      },
    )
    sink_all-Took has_key (p ∷ pieces) out st h fits =
        let assoc = append_assoc out p (concat pieces) in
        let (mid, one, t) =
          to_encryptor-Took has_key out p st h
            (omega (arith, ap length assoc, length-append (out ++ p) (concat pieces))) in
        let (end, two, u) =
          sink_all-Took has_key pieces (out ++ p) mid t.holds
            (omega (arith, ap length assoc, t.same.same_capacity)) in
        (
          end,
          rw one two,
          record {
            holds = subst (λ o. Handed has_key o end) assoc u.holds;
            same = Same-then st.1 mid.1 end.1 t.same u.same;
            ended = u.ended ∙ t.ended;
          },
        )

    -- The flush at the end of a chunk.
    pub record Sealed (ends : List ℕ → List ℕ) (has_key : Bool) (frame : List ℕ)
        (before after : BytesBuf × Chunk) : Type 0 where
      pub valid : IsChunk after.1
      pub payload : contents after.1 ≡ sealed_by has_key frame
      pub buffer : after.0 ≡ buffering []
      pub same : Same before.1 after.1
      pub ended : after.1.header.end_ ≡ ends before.1.header.end_

    pub flush-Sealed :
        (has_key : Bool) (frame : List ℕ) (st : BytesBuf × Chunk)
        → Handed has_key frame st
        → length (sealed_by has_key frame) ≤ capacity st.1
        → (st' : BytesBuf × Chunk) × (encrypt_optional aes to_chunk encrypt_error has_key flush st
            ≡ (ok tt, st'))
          × Sealed (λ e. e) has_key frame st st'
    unfolding encrypt_optional
    flush-Sealed false frame (e, k) h fits = (
      (e, k),
      refl,
      record {
        valid = h.valid;
        payload = h.seals.1;
        buffer = h.seals.0;
        same = record { same_capacity = refl; same_fixed = refl };
        ended = refl;
      },
    )
    flush-Sealed true frame (e, k) h fits =
        let b = h.seals in
        let f = flush-Encrypts laws to_chunk encrypt_error cap b.left room b.short in
        let whole : aes.encrypt_blocks b.whole ++ concat f.pieces
            ≡ aes.encrypt_blocks (aes.pad frame) =
          ap (λ t. aes.encrypt_blocks b.whole ++ t)
            (f.out ∙ ap (λ t. aes.encrypt_blocks (aes.pad t)) (append-nil b.left))
          ∙ sym (laws.encrypt-append b.whole (aes.pad b.left) b.blocks)
          ∙ ap aes.encrypt_blocks
              (sym (laws.pad-append b.whole b.left b.blocks) ∙ ap aes.pad b.same) in
        let (k', runs, stores) = sink_all-Stores f.pieces k h.valid (
          omega (
            arith,
            ap length b.encrypted,
            ap length whole,
            length-append (aes.encrypt_blocks b.whole) (concat f.pieces),
          )) in
        (
          (buffering [], k'),
          rw b.buffer (
              Ends-ok to_chunk (buffering []) f.pieces (encrypt aes to_chunk encrypt_error flush)
                (buffering b.left, k) k k' (f.gives k) runs),
          record {
            valid = stores.valid;
            payload = stores.written ∙ ap (λ t. t ++ concat f.pieces) b.encrypted ∙ whole;
            buffer = refl;
            same = record { same_capacity = stores.same_capacity; same_fixed = stores.same_fixed };
            ended = stores.same_end;
          },
        )
