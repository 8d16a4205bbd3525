-- ===== src/Logger/Handover.antt =====
-- The end of `Core::on` for a chunk with bytes in it: the switch, and the initialized chunk after it.
use pinenut.Prelude.{◌<◌, ◌≡◌, ap, subst, ◌∙◌, arith, length, length-drop, Bool, Fault}
use pinenut.Chrono.{Chrono, IsChrono}
use pinenut.Common.BytesBuf.{BytesBuf}
use pinenut.Encrypt.{Aes}
use pinenut.Chunk.{Chunk, bind, chunk_bytes, capacity, payload_len, initialize}
use pinenut.Chunk.Write.{IsChunk}
use pinenut.Chunk.Write.Initialize.{Fresh, initialize-Fresh}
use pinenut.Buffer.{Side, right, as_slice, side_len}
use pinenut.Logger.{Core, Compress, LoggerError, bind_input, unbind, switched}
use pinenut.Logger.Rotation.{HandedOver, hand_over-HandedOver, hand_over-full, length-as_slice}
use pinenut.Logger.Batch.InputSide.{
  Input, Input-fills, length-chunk_bytes, write_slice-PutBack_fills,
}

module _ {c : Chrono} (chrono : IsChrono c) (aes : Aes) (has_key : Bool) {Z : Type 0}
    (compress_op : Compress Z (BytesBuf × Chunk) (Fault LoggerError)) where
  -- The chunk `sent` is on the output side, and the input side has a fresh one.
  pub record Moved (now : c.DateTime) (sent : Chunk) (before after : Core Z) : Type 0 where
    pub alpha : Side
    pub output : as_slice right after.memory ≡ chunk_bytes sent
    pub size : length (chunk_bytes sent) ≡ side_len after.memory
    pub fresh : Chunk
    pub is_fresh : Fresh chrono now before.pub_key (capacity sent) fresh
    pub side : Input alpha fresh after.memory

  pub switched-Moved :
      (alpha : Side) (now : c.DateTime) (core : Core Z) (k sent : Chunk)
      → Input alpha k core.memory
      → IsChunk sent
      → capacity sent ≡ capacity k
      → 0 < payload_len sent
      → length core.pub_key ≡ 33
      → (let x =
            switched c aes has_key compress_op (unbind c aes has_key compress_op (core, sent)) in
          Moved now sent core
            (unbind c aes has_key compress_op (x.0, initialize c now core.pub_key x.1)))
  unfolding unbind switched bind_input bind
  switched-Moved alpha now core k sent side valid same_capacity pos key =
      let fills = Input-fills alpha k core.memory side in
      let size : length (chunk_bytes sent) ≡ side_len core.memory =
        omega (arith, length-chunk_bytes sent valid.layout, fills, same_capacity) in
      let h =
        subst (HandedOver c aes has_key compress_op core sent)
          (hand_over-full c aes has_key compress_op core sent pos)
          (hand_over-HandedOver c aes has_key compress_op alpha core sent side.valid size pos) in
      let x = switched c aes has_key compress_op (unbind c aes has_key compress_op (core, sent)) in
      let slice = as_slice right core.memory in
      let room_left : capacity x.1 ≡ capacity sent = omega (
        arith,
        ap capacity h.bound,
        length-drop 60 slice,
        length-as_slice alpha right core.memory side.valid,
        fills,
        same_capacity,
      ) in
      let fresh = initialize c now core.pub_key x.1 in
      let is_fresh : Fresh chrono now core.pub_key (capacity sent) fresh =
        subst (λ n. Fresh chrono now core.pub_key n fresh) room_left
          (initialize-Fresh chrono now core.pub_key x.1 key
            (omega (arith, room_left, valid.u32))) in
      let back =
        write_slice-PutBack_fills h.alpha fresh x.0.memory h.valid is_fresh.valid.layout
          (omega (arith, is_fresh.same_capacity, fills, h.same_len, same_capacity)) in
      record {
        alpha = h.alpha;
        output = back.other ∙ h.output;
        size = omega (arith, size, h.same_len, back.same_len);
        fresh = fresh;
        is_fresh = is_fresh;
        side = back.holds;
      }
