-- ===== src/Codec/Writes.antt =====
-- What each encoder hands to its sink: the list of its calls, for every sink.
use mathlib.Core.WellFounded.{Acc}
use mathlib.Core.Logic.{dif_pos, dif_neg}
use native.Mathlib.Decide.{dec_lt}
use pinenut.Prelude.{
  ℕ, zero, suc, ◌+◌, ◌/◌, ◌%◌, ◌^◌, ◌<◌, ◌≡◌, refl, ap, arith, List, [], ◌∷◌, ◌++◌, Option, none,
  false, some, length, ltb, lt_wf, lt→ltb,
}
use mathlib.Core.Path.{fun_ext}
use native.Mathlib.Bridge.{le_prop}
use native.Mathlib.Nat.{mod-eq_of_lt, pow-suc}
use pinenut.Prelude.{bind_assoc, bind-pure, sym, ◌∙◌}
use pinenut.Prelude.{Exec, Sink, pure, ◌>>◌}
use pinenut.Prelude.Bits.{bit_and_low, bit_or_top}
use pinenut.Chrono.{Chrono}
use pinenut.Record.{primitive, Str, Location, Meta, Record}
use pinenut.Codec.{
  shift_shrinks, encode_u8, encode_varint_loop, encode_varint, encode_bytes, encode_str,
  encode_option, encode_level, encode_location, encode_datetime, encode_meta, encode_record,
  u64_or_zero,
}
use pinenut.Codec.Varint.{groups, varint}
use pinenut.Codec.Values.{
  singles, AllOption, option_writes, IsStr, IsU32, IsU64, IsLocation, IsMeta, IsRecord, str_writes,
  number_writes, location_writes, datetime_writes, meta_writes, record_writes,
}
use pinenut.Prelude.{ℤ, pos, negsuc, IsI64}
use pinenut.Chrono.{IsChrono}

module _ {S E : Type 0} (sink : Sink S E) where
  -- The calls in order, up to the first that fails.
  abbrev pub sink_all : List (List ℕ) → Exec S E Unit
  sink_all [] = pure tt
  sink_all (w ∷ ws) = do sink w; sink_all ws

  pub record Writes (m : Exec S E Unit) (ws : List (List ℕ)) : Type 0 where
    pub at : (s : S) → m s ≡ sink_all ws s

  pub sink_all-append : (ws vs : List (List ℕ)) → sink_all (ws ++ vs) ≡ (sink_all ws >> sink_all vs)
  sink_all-append [] vs = refl
  sink_all-append (w ∷ ws) vs =
      ap (λ k. sink w >> k) (sink_all-append ws vs)
      ∙ sym (fun_ext (bind_assoc (sink w) (λ _. sink_all ws) (λ _. sink_all vs)))

  Writes-nil : Writes (pure tt) []
  Writes-nil = record { at = λ s. refl }

  Writes-one : (w : List ℕ) → Writes (sink w) (w ∷ [])
  Writes-one w = record { at = λ s. sym (bind-pure (sink w) s) }

  Writes-seq :
      {m n : Exec S E Unit} (ws vs : List (List ℕ))
      → Writes m ws
      → Writes n vs
      → Writes (m >> n) (ws ++ vs)
  Writes-seq ws vs p q = record { at = λ s. rw (sink_all-append ws vs, fun_ext p.at, fun_ext q.at) }

  encode_u8-Writes : (b : ℕ) → Writes (encode_u8 sink b) ((b ∷ []) ∷ [])
  unfolding encode_u8
  encode_u8-Writes b = Writes-one (b ∷ [])

  encode_varint_loop-Writes :
      (k v : ℕ) (a : Acc ◌<◌ v)
      → v < 128 ^ suc k
      → Writes (encode_varint_loop sink v a) (singles (groups k v))
  unfolding encode_varint_loop encode_u8 groups
  encode_varint_loop-Writes zero v (Acc.intro _ smaller) h =
      rw (dif_neg (dec_lt 0x7f v) (λ p. omega arith), mod-eq_of_lt {n = v} {m = 256} (omega arith))
        (Writes-one (v ∷ []))
  encode_varint_loop-Writes (suc k) v (Acc.intro _ smaller) h = elim (dec_lt 0x7f v) [
    | yes p ↦
        let more : ltb v 128 ≡ false = ground arith in
        rw
          (
            dif_pos (dec_lt 0x7f v) le_prop p,
            bit_and_low,
            mod-eq_of_lt {n = v % 128} {m = 256} (omega arith),
            bit_or_top (v % 128) (omega arith),
            more,
          )
          (Writes-seq (((v % 128 + 128) ∷ []) ∷ []) (singles (groups k (v / 128))) (Writes-one _) (
            encode_varint_loop-Writes k (v / 128) (smaller (v / 128) (shift_shrinks v p))
              (omega (arith, pow-suc 128 (suc k)))))
    | no p ↦
        rw
          (
            dif_neg (dec_lt 0x7f v) p,
            mod-eq_of_lt {n = v} {m = 256} (omega arith),
            lt→ltb v 128 (omega arith),
          )
          (Writes-one (v ∷ []))
  ]

  encode_varint-Writes : (v : ℕ) → v < 2 ^ 64 → Writes (encode_varint sink v) (singles (varint v))
  unfolding encode_varint varint
  encode_varint-Writes v h = encode_varint_loop-Writes 9 v (lt_wf.apply v) (omega arith)

  encode_bytes-Writes :
      (bytes : List ℕ)
      → length bytes < 2 ^ 64
      → Writes (encode_bytes sink bytes) (singles (varint (length bytes)) ++ bytes ∷ [])
  unfolding encode_bytes
  encode_bytes-Writes bytes h =
      Writes-seq _ _ (encode_varint-Writes (length bytes) h) (Writes-one bytes)

  encode_option-Writes :
      {A : Type 0} (encode : A → Exec S E Unit) (writes : A → List (List ℕ)) (fits : A → Type 0)
      → ((a : A) → fits a → Writes (encode a) (writes a))
      → (o : Option A) → AllOption fits o
      → Writes (encode_option sink encode o) (option_writes writes o)
  unfolding encode_option encode_u8
  encode_option-Writes encode writes fits each none h = Writes-one (0 ∷ [])
  encode_option-Writes encode writes fits each (some a) h =
      Writes-seq ((1 ∷ []) ∷ []) (writes a) (Writes-one (1 ∷ [])) (each a h)

  encode_str-Writes : (s : Str) → IsStr s → Writes (encode_str sink s) (str_writes s)
  unfolding encode_str
  encode_str-Writes s h = encode_bytes-Writes s h.short

  encode_location-Writes :
      (l : Location) → IsLocation l → Writes (encode_location sink l) (location_writes l)
  unfolding encode_location
  encode_location-Writes l h = Writes-seq _ _ (text l.file h.file) (
      Writes-seq _ _ (text l.func h.func) (
        Writes-seq _ _
          (encode_option-Writes _ number_writes IsU32 (λ v lt. encode_varint-Writes v (omega arith))
            l.line h.line)
          Writes-nil))
    where
      text :
          (o : Option Str)
          → AllOption IsStr o
          → Writes (encode_option sink (encode_str sink) o) (option_writes str_writes o)
      text o p = encode_option-Writes _ str_writes IsStr encode_str-Writes o p

module _ {c : Chrono} (laws : IsChrono c) {S E : Type 0} (sink : Sink S E) where
  open c use {DateTime, timestamp, timestamp_subsec_nanos}

  u64_or_zero-IsU64 : (z : ℤ) → IsI64 z → IsU64 (u64_or_zero z)
  unfolding u64_or_zero
  u64_or_zero-IsU64 (pos n) h = omega arith
  u64_or_zero-IsU64 (negsuc n) h = omega arith

  encode_datetime-Writes :
      (d : DateTime) → Writes sink (encode_datetime c sink d) (datetime_writes c d)
  unfolding encode_datetime
  encode_datetime-Writes d =
      Writes-seq sink _ _
        (encode_varint-Writes sink _ (u64_or_zero-IsU64 (timestamp d) (laws.timestamp_i64 d)))
        (encode_varint-Writes sink _ (omega (arith, laws.nanos_u32 d)))

  encode_meta-Writes :
      (m : Meta c) → IsMeta c m → Writes sink (encode_meta c sink m) (meta_writes c m)
  unfolding encode_meta encode_level
  encode_meta-Writes m h = Writes-seq sink _ _ (encode_u8-Writes sink (primitive m.level)) (
      Writes-seq sink _ _ (encode_datetime-Writes m.datetime) (
        Writes-seq sink _ _ (encode_location-Writes sink m.location h.location) (
          Writes-seq sink _ _
            (encode_option-Writes sink _ str_writes IsStr (encode_str-Writes sink) m.tag h.tag)
            (Writes-seq sink _ _
              (encode_option-Writes sink _ number_writes IsU64 (encode_varint-Writes sink)
                m.thread_id h.thread_id)
              (Writes-nil sink)))))

  -- Encoding a record that the source's types can hold makes exactly the calls of `record_writes`, in
  -- order, on every sink, up to the first error of the sink.
  pub encode_record-writes :
      (r : Record c)
      → IsRecord c r
      → (s : S) → encode_record c sink r s ≡ sink_all sink (record_writes c r) s
  unfolding encode_record
  encode_record-writes r h =
      (Writes-seq sink _ _ (encode_meta-Writes r.meta h.meta)
        (Writes-seq sink _ _ (encode_str-Writes sink r.content h.content) (Writes-nil sink))).at
