-- ===== src/Logger/Start/BothSides.antt =====
-- `initialize_buffer` of the core logger, on a memory where a side is not valid.
use pinenut.Prelude.{
  ℕ, ◌-◌, ◌/◌, ◌<◌, ◌^◌, ◌≤◌, ◌≡◌, refl, sym, ap, subst, ◌∙◌, arith, List, length, length-drop,
  Bool, false, ◌&&◌, Bool-cases, inl, inr, Fault,
}
use pinenut.Chrono.{Chrono, IsChrono}
use pinenut.Common.BytesBuf.{BytesBuf}
use pinenut.Encrypt.{Aes}
use pinenut.Chunk.{Chunk, bind, chunk_bytes, capacity, validate, initialize}
use pinenut.Chunk.Write.Initialize.{Fresh, initialize-Fresh}
use pinenut.Buffer.{Side, left, right, as_slice, write_slice, side_len, initialize_buffer}
use pinenut.Buffer.Sides.{IsBuffer}
use pinenut.Buffer.Writes.{initialize-Initialized, length-initialize_buffer, write_slice-Isolated}
use pinenut.Logger.{Compress, LoggerError, initialize_sides}
use pinenut.Logger.Rotation.{put_all, length-as_slice}
use pinenut.Logger.Batch.InputSide.{Input, length-chunk_bytes, write_slice-PutBack_fills}

module _ {c : Chrono} (chrono : IsChrono c) (aes : Aes) (has_key : Bool) {Z : Type 0}
    (compress_op : Compress Z (BytesBuf × Chunk) (Fault LoggerError)) where
  -- Both sides are fresh.
  pub record BothFresh (now : c.DateTime) (pub_key : List ℕ) (len : ℕ) (memory : List ℕ)
      : Type 0 where
    pub alpha : Side
    pub chunk : Chunk
    pub other : Chunk
    pub side : Input alpha chunk memory
    pub output : as_slice right memory ≡ chunk_bytes other
    pub is_fresh : Fresh chrono now pub_key (len - 60) chunk
    pub other_fresh : Fresh chrono now pub_key (len - 60) other

  both_initialized :
      (now : c.DateTime) (pub_key memory : List ℕ) (k m : Chunk) (alpha : Side)
      → IsBuffer alpha memory
      → Fresh chrono now pub_key (side_len memory - 60) k
      → Fresh chrono now pub_key (side_len memory - 60) m
      → 60 ≤ side_len memory
      → BothFresh now pub_key
          (side_len memory)
          (write_slice right 0 (chunk_bytes m) (write_slice left 0 (chunk_bytes k) memory))
  both_initialized now pub_key memory k m alpha valid k_fresh m_fresh room =
      let one =
        write_slice-PutBack_fills alpha k memory valid k_fresh.valid.layout
          (omega (arith, k_fresh.same_capacity)) in
      let mid = write_slice left 0 (chunk_bytes k) memory in
      let size : length (chunk_bytes m) ≡ side_len mid =
        omega
          (arith, length-chunk_bytes m m_fresh.valid.layout, m_fresh.same_capacity, one.same_len) in
      let w =
        write_slice-Isolated alpha right 0 (chunk_bytes m) mid one.holds.valid
          (omega (arith, size)) in
      record {
        alpha = alpha;
        chunk = k;
        other = m;
        side = record {
          valid = w.valid;
          layout = k_fresh.valid.layout;
          input = w.there ∙ one.holds.input;
        };
        output =
            w.here
            ∙ put_all (chunk_bytes m) (as_slice right mid)
                (size ∙ sym (length-as_slice alpha right mid one.holds.valid));
        is_fresh = k_fresh;
        other_fresh = m_fresh;
      }

  bound-Fresh :
      (alpha side : Side) (now : c.DateTime) (pub_key memory : List ℕ)
      → IsBuffer alpha memory
      → length pub_key ≡ 33
      → side_len memory < 2 ^ 32
      → Fresh chrono now pub_key
          (side_len memory - 60)
          (initialize c now pub_key (bind (as_slice side memory)))
  unfolding bind
  bound-Fresh alpha side now pub_key memory valid key small =
      let slice = as_slice side memory in
      let cap : capacity (bind slice) ≡ side_len memory - 60 =
        omega (arith, length-drop 60 slice, length-as_slice alpha side memory valid) in
      subst (λ n. Fresh chrono now pub_key n (initialize c now pub_key (bind slice))) cap
        (initialize-Fresh chrono now pub_key (bind slice) key (omega (arith, cap)))

  initialize_sides-invalid :
      (now : c.DateTime) (pub_key memory : List ℕ)
      → (let mem = initialize_buffer memory in
          validate (bind (as_slice left mem)) && validate (bind (as_slice right mem)))
        ≡ false
      → initialize_sides c aes has_key compress_op now pub_key memory ≡ (
          let mem = initialize_buffer memory in
          write_slice right 0 (chunk_bytes (initialize c now pub_key (bind (as_slice right mem)))) (
            write_slice left 0
              (chunk_bytes (initialize c now pub_key (bind (as_slice left mem))))
              mem))
  unfolding initialize_sides
  initialize_sides-invalid now pub_key memory h =
      elim (Bool-cases (validate (bind (as_slice left (initialize_buffer memory))))) [
        | inl l ↦
            let r : validate (bind (as_slice right (initialize_buffer memory))) ≡ false =
              ground (arith, h, l) in
            rw (l, r) refl
        | inr l ↦ rw l refl
      ]

  pub initialize_sides-BothFresh :
      (now : c.DateTime) (pub_key memory : List ℕ)
      → (let mem = initialize_buffer memory in
          validate (bind (as_slice left mem)) && validate (bind (as_slice right mem)))
        ≡ false
      → length pub_key ≡ 33
      → 60 ≤ side_len memory
      → side_len memory < 2 ^ 32
      → BothFresh now pub_key
          (side_len memory)
          (initialize_sides c aes has_key compress_op now pub_key memory)
  initialize_sides-BothFresh now pub_key memory h key room small =
      let mem = initialize_buffer memory in
      let i = initialize-Initialized memory (omega arith) in
      let len : side_len mem ≡ side_len memory =
        ap (λ n. (n - 8) / 2) (length-initialize_buffer memory) in
      subst (BothFresh now pub_key (side_len memory))
        (sym (initialize_sides-invalid now pub_key memory h))
        (subst
          (λ n. BothFresh now pub_key n (
            write_slice right 0 (chunk_bytes (initialize c now pub_key (bind (as_slice right mem))))
              (write_slice left 0
                (chunk_bytes (initialize c now pub_key (bind (as_slice left mem)))) mem)))
          len
          (both_initialized now pub_key mem _ _ i.alpha i.valid
            (bound-Fresh i.alpha left now pub_key mem i.valid key (omega (arith, len)))
            (bound-Fresh i.alpha right now pub_key mem i.valid key (omega (arith, len)))
            (omega (arith, len))))
