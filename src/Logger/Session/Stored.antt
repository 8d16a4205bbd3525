-- ===== src/Logger/Session/Stored.antt =====
-- What reaches the chunk, when there is room for it.
use pinenut.Prelude.{
  ℕ, ◌+◌, ◌≤◌, ◌≡◌, refl, sym, ap, ◌∙◌, arith, List, [], ◌∷◌, ◌++◌, append_assoc, append-nil,
  length, length-append, concat, Bool, false, ltb, ok,
}
use pinenut.Chunk.{Chunk, Header, capacity, payload_len, header_payload_len, set_end_datetime}
use pinenut.Chunk.Write.{IsChunk, contents, write-Appends}
use pinenut.Chrono.{Chrono}
use pinenut.Record.{Record}
use pinenut.Common.LittleEndian.{i64_to_le_bytes, length-i64_to_le_bytes}
use pinenut.Codec.Writes.{sink_all}
use pinenut.Logger.{to_chunk}

-- What no write to a chunk changes of its header.
abbrev pub fixed : Header → List ℕ × List ℕ × Bool × List ℕ × List ℕ
fixed h = (h.magic, h.version, h.writeback, h.start, h.pub_key)

-- `bytes` went to a chunk.
pub record Stores (bytes : List ℕ) (before after : Chunk) : Type 0 where
  pub valid : IsChunk after
  pub written : contents after ≡ contents before ++ bytes
  pub same_capacity : capacity after ≡ capacity before
  pub same_fixed : fixed after.header ≡ fixed before.header
  pub same_end : after.header.end_ ≡ before.header.end_

pub Stores-nil : (chunk : Chunk) → IsChunk chunk → Stores [] chunk chunk
Stores-nil chunk h = record {
  valid = h;
  written = sym (append-nil (contents chunk));
  same_capacity = refl;
  same_fixed = refl;
  same_end = refl;
}

pub Stores-then : (a b : List ℕ) (k m n : Chunk) → Stores a k m → Stores b m n → Stores (a ++ b) k n
Stores-then a b k m n p q = record {
  valid = q.valid;
  written = q.written ∙ ap (λ t. t ++ b) p.written ∙ append_assoc (contents k) a b;
  same_capacity = q.same_capacity ∙ p.same_capacity;
  same_fixed = q.same_fixed ∙ p.same_fixed;
  same_end = q.same_end ∙ p.same_end;
}

pub to_chunk-Stores :
    (bytes : List ℕ) (k : Chunk)
    → IsChunk k
    → length (contents k) + length bytes ≤ capacity k
    → (k' : Chunk) × (to_chunk bytes k ≡ (ok tt, k')) × Stores bytes k k'
unfolding to_chunk
to_chunk-Stores bytes k h room =
    let w = write-Appends bytes k h in
    let fits : ltb (capacity k) (length (contents k) + length bytes) ≡ false = ground arith in
    let e : (ok tt, contents k ++ bytes) ≡ (w.result, contents w.after) = rw fits at w.refines in
    let okay : w.result ≡ ok tt = sym (ap (λ p. p.0) e) in
    (
      w.after,
      rw (w.returns, okay) refl,
      record {
        valid = w.keeps;
        written = sym (ap (λ p. p.1) e);
        same_capacity = w.same_capacity;
        same_fixed = ap fixed w.same_header;
        same_end = ap (λ h. h.end_) w.same_header;
      },
    )

pub sink_all-Stores :
    (pieces : List (List ℕ)) (k : Chunk)
    → IsChunk k
    → length (contents k) + length (concat pieces) ≤ capacity k
    → (k' : Chunk) × (sink_all to_chunk pieces k ≡ (ok tt, k')) × Stores (concat pieces) k k'
sink_all-Stores [] k h room = (k, refl, Stores-nil k h)
sink_all-Stores (p ∷ pieces) k h room =
    let size = length-append p (concat pieces) in
    let (m, one, s) = to_chunk-Stores p k h (omega (arith, size)) in
    let (n, two, t) =
      sink_all-Stores pieces m s.valid
        (omega (arith, size, ap length s.written, length-append (contents k) p, s.same_capacity)) in
    (n, rw one two, Stores-then p (concat pieces) k m n s t)

module _ (c : Chrono) where
  -- Of a chunk, only the date at the end of the range is changed.
  pub record Dates (datetime : c.DateTime) (before after : Chunk) : Type 0 where
    pub valid : IsChunk after
    pub written : contents after ≡ contents before
    pub same_capacity : capacity after ≡ capacity before
    pub same_fixed : fixed after.header ≡ fixed before.header
    pub ended : after.header.end_ ≡ i64_to_le_bytes (c.timestamp datetime)

  -- The end dates after records are logged.
  abbrev pub end_after : List (Record c) → List ℕ → List ℕ
  end_after [] end_ = end_
  end_after (r ∷ rs) end_ = end_after rs (i64_to_le_bytes (c.timestamp r.meta.datetime))

  -- The date at the end of the header is no part of what is written.
  pub set_end_datetime-Dates :
      (datetime : c.DateTime) (k : Chunk)
      → IsChunk k
      → Dates datetime k (set_end_datetime c datetime k)
  unfolding set_end_datetime payload_len header_payload_len
  set_end_datetime-Dates datetime k h = record {
    valid = record {
      layout = record {
        magic_len = h.layout.magic_len;
        version_len = h.layout.version_len;
        length_len = h.layout.length_len;
        start_len = h.layout.start_len;
        end_len = length-i64_to_le_bytes (c.timestamp datetime);
        pub_key_len = h.layout.pub_key_len;
      };
      magic = h.magic;
      within = h.within;
      u32 = h.u32;
    };
    written = refl;
    same_capacity = refl;
    same_fixed = refl;
    ended = refl;
  }
