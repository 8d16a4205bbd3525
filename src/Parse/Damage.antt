-- ===== src/Parse/Damage.antt =====
-- `RecordParser` on bytes that are not a stream of records.
use pinenut.Prelude.{
  ℕ, zero, suc, ◌-◌, ◌≤◌, ◌≡◌, refl, ap, sym, ◌∙◌, arith, List, [], ◌∷◌, ◌++◌, append-nil,
  append_assoc, subst, length, length-append, drop-append, take, min, drop, none, some,
}
use pinenut.Prelude.{Result, ok, err, Exec}
use pinenut.Chrono.{Chrono}
use pinenut.Record.{Record}
use pinenut.Codec.{
  DecodingError, unexpected_end, unexpected_variant, str, integer_overflow, date_time,
  decode_record,
}
use pinenut.Codec.Stable.{IsEnd, decode_record-Stable}
use pinenut.Codec.Truncated.{RunsOut}
use pinenut.Common.BytesBuf
use pinenut.Common.BytesBuf.{BytesBuf}
use pinenut.Errors.{IoError, ChunkError, decode}
use pinenut.Parse.RecordParser.{
  RecordParser, Outcome, after_callback, after_decode, parse_loop, finish, parse, after_parse,
  parse_all,
}

module _ (c : Chrono) {C : Type 0} (callback : Record c → Exec C IoError (Unit {0})) where
  drain-zero : (b : BytesBuf) → BytesBuf.drain 0 b ≡ b
  unfolding BytesBuf.drain
  drain-zero b =
      let e : min 0 (BytesBuf.len b) ≡ 0 = omega arith in
      ap (λ n. record { capacity = b.capacity; bytes = drop n b.bytes }) e

  -- A buffer that is full of an incomplete record takes nothing more, and nothing out of it is read.
  parse-full :
      (bytes : List ℕ) (p : RecordParser C) (b : ℕ) (bs : List ℕ)
      → p.buffer.bytes ≡ b ∷ bs
      → p.buffer.capacity ≤ length p.buffer.bytes
      → RunsOut (decode_record c) (b ∷ bs)
      → parse c callback bytes p ≡ some (ok 0, p)
  unfolding parse parse_loop after_decode finish BytesBuf.buffer
  parse-full bytes p b bs e full (n, rest, out) =
      let none_fit : min (length bytes) (p.buffer.capacity - length p.buffer.bytes) ≡ 0 =
        omega arith in
      rw (none_fit, append-nil, e, out, drain-zero)

  -- When the parser's buffer is full of an incomplete record, `parse_all` does not end on any further
  -- byte: it runs out of any amount of fuel.
  pub parse_all-diverges :
      (fuel x : ℕ) (xs : List ℕ) (p : RecordParser C) (b : ℕ) (bs : List ℕ)
      → p.buffer.bytes ≡ b ∷ bs
      → p.buffer.capacity ≤ length p.buffer.bytes
      → RunsOut (decode_record c) (b ∷ bs)
      → parse_all c callback fuel (x ∷ xs) p ≡ none
  unfolding parse_all after_parse
  parse_all-diverges zero x xs p b bs e full out = refl
  parse_all-diverges (suc fuel) x xs p b bs e full out =
      rw (parse-full (x ∷ xs) p b bs e full out) (parse_all-diverges fuel x xs p b bs e full out)

  -- Where the loop stops with a decoding error: the bytes `bad` begin with what cannot be decoded.
  record Stopped (src : List ℕ) (len read_len : ℕ) (e : DecodingError) : Type 0 where
    used : List ℕ
    first : ℕ
    others : List ℕ
    source : List ℕ
    cut : src ≡ used ++ (first ∷ others)
    read : read_len ≡ len - length (first ∷ others)
    fails : decode_record c (first ∷ others) ≡ (err e, source)
    lasting : ¬ IsEnd e

  loop-Stopped :
      (fuel len : ℕ) (src : List ℕ) (read_len : ℕ) (st : C) (e : DecodingError) (read_len' : ℕ)
      (st' : C)
      → read_len ≡ len - length src
      → parse_loop c callback fuel len src read_len st ≡ some (err (decode e), read_len', st')
      → Stopped src len read_len' e
  unfolding parse_loop after_decode after_callback
  loop-Stopped fuel len [] read_len st e r' st' hr h = absurd (cc)
  loop-Stopped zero len (b ∷ bs) read_len st e r' st' hr h = absurd (cc)
  loop-Stopped (suc fuel) len (b ∷ bs) read_len st e r' st' hr h =
      go (λ src rl st. loop-Stopped fuel len src rl st e r' st') (decode_record c (b ∷ bs)).0
        (decode_record c (b ∷ bs)).1 refl h
    where
      Again : Type 0
      Again =
          (src : List ℕ) (rl : ℕ) (st : C)
          → rl ≡ len - length src
          → parse_loop c callback fuel len src rl st ≡ some (err (decode e), r', st')
          → Stopped src len r' e

      called :
          Again
          → (x : Record c) (s : List ℕ) → decode_record c (b ∷ bs) ≡ (ok x, s)
          → (rc : Result IoError (Unit {0})) (st1 : C)
          → after_callback c callback (parse_loop c callback fuel len s) (len - length s) (rc, st1)
            ≡ some (err (decode e), r', st')
          → Stopped (b ∷ bs) len r' e
      called again x s q (ok u) st1 k =
          let t = again s (len - length s) st1 refl k in
          let (front, cut) = (decode_record-Stable c).suffix (b ∷ bs) q in
          record {
            used = front ++ t.used;
            first = t.first;
            others = t.others;
            source = t.source;
            cut =
                cut
                ∙ ap (λ l. front ++ l) t.cut
                ∙ sym (append_assoc front t.used (t.first ∷ t.others));
            read = t.read;
            fails = t.fails;
            lasting = t.lasting;
          }
      called again x s q (err y) st1 k = absurd (cc (k))

      damaged :
          (d : DecodingError) (s : List ℕ)
          → ¬ IsEnd d
          → decode_record c (b ∷ bs) ≡ (err d, s)
          → ◌≡◌ {A = Outcome C}
              (some (err (decode d), read_len, st))
              (some (err (decode e), r', st'))
          → Stopped (b ∷ bs) len r' e
      damaged d s n q k =
          let same : d ≡ e = cc (k) in
          record {
            used = [];
            first = b;
            others = bs;
            source = s;
            cut = refl;
            read = cc (k, hr);
            fails = q ∙ ap (λ d. (err d, s)) same;
            lasting = subst (λ d. ¬ IsEnd d) same n;
          }

      go :
          Again
          → (r : Result DecodingError (Record c)) (s : List ℕ) → decode_record c (b ∷ bs) ≡ (r, s)
          → after_decode c callback (parse_loop c callback fuel len) len read_len st (r, s)
            ≡ some (err (decode e), r', st')
          → Stopped (b ∷ bs) len r' e
      go again (ok x) s q k = called again x s q (callback x st).0 (callback x st).1 k
      go again (err (unexpected_end n)) s q k = absurd (cc (k))
      go again (err (unexpected_variant t n)) s q k = damaged _ s (λ h. h) q k
      go again (err str) s q k = damaged _ s (λ h. h) q k
      go again (err integer_overflow) s q k = damaged _ s (λ h. h) q k
      go again (err date_time) s q k = damaged _ s (λ h. h) q k

  finish-err :
      (len : ℕ) (b : BytesBuf) (o : Outcome C) (x : ChunkError) (q : RecordParser C)
      → finish c callback len b o ≡ some (err x, q)
      → (read_len : ℕ) × (st : C) × (o ≡ some (err x, read_len, st))
        × (q ≡ record { callback = st; buffer = BytesBuf.drain read_len b })
  unfolding finish
  finish-err len b none x q h = absurd (cc (h))
  finish-err len b (some (ok u, rl, st)) x q h = absurd (cc (h))
  finish-err len b (some (err y, rl, st)) x q h = (rl, st, cc (h), cc (h))

  after_decode-err :
      (next : List ℕ → ℕ → C → Outcome C) (len read_len : ℕ) (st : C) (e : DecodingError)
      (s : List ℕ)
      → ¬ IsEnd e
      → after_decode c callback next len read_len st (err e, s)
        ≡ some (err (decode e), read_len, st)
  unfolding after_decode
  after_decode-err next len read_len st (unexpected_end n) s h = absurd (h tt)
  after_decode-err next len read_len st (unexpected_variant t n) s h = refl
  after_decode-err next len read_len st str s h = refl
  after_decode-err next len read_len st integer_overflow s h = refl
  after_decode-err next len read_len st date_time s h = refl

  drain-Stopped :
      (b : BytesBuf) (read_len : ℕ) (e : DecodingError)
      (t : Stopped b.bytes (length b.bytes) read_len e)
      → (BytesBuf.drain read_len b).bytes ≡ t.first ∷ t.others
  unfolding BytesBuf.drain
  drain-Stopped b read_len e t =
      let size = ap length t.cut ∙ length-append t.used (t.first ∷ t.others) in
      ap (drop (min read_len (length b.bytes))) t.cut
      ∙ drop-append _ t.used (t.first ∷ t.others) (omega (arith, size, t.read))

  parse_bad :
      (more : List ℕ) (q : RecordParser C) (f : ℕ) (o s : List ℕ) (e : DecodingError)
      → q.buffer.bytes ≡ f ∷ o
      → ¬ IsEnd e
      → decode_record c (f ∷ o) ≡ (err e, s)
      → (buf : BytesBuf) × (parse c callback more q
          ≡ some (err (decode e), record { callback = q.callback; buffer = buf }))
  unfolding parse parse_loop finish BytesBuf.buffer
  parse_bad more q f o s e start lasting fails =
      let n = min (length more) (q.buffer.capacity - length q.buffer.bytes) in
      let bad = (decode_record-Stable c).err_more (f ∷ o) (take n more) lasting fails in
      let b = BytesBuf.buffer more q.buffer in
      (
        BytesBuf.drain 0 b.1,
        ap
              (λ l. finish c callback n b.1 (
                parse_loop c callback (length (l ++ take n more)) (length (l ++ take n more))
                  (l ++ take n more) 0 q.callback))
              start
            ∙ ap (λ o. finish c callback n b.1 o)
                (ap
                    (after_decode c callback
                      (parse_loop c callback (length (o ++ take n more))
                        (length (f ∷ o ++ take n more)))
                      (length (f ∷ o ++ take n more)) 0 q.callback)
                    bad
                  ∙ after_decode-err _ _ _ _ _ _ lasting),
      )

  -- Once a chunk's bytes have a record that cannot be decoded, every later call of `parse` fails with
  -- the same error, whatever bytes it is given, and calls back nothing.
  pub parse-damaged :
      (bytes more : List ℕ) (p q : RecordParser C) (e : DecodingError)
      → parse c callback bytes p ≡ some (err (decode e), q)
      → (buf : BytesBuf) × (parse c callback more q
          ≡ some (err (decode e), record { callback = q.callback; buffer = buf }))
  unfolding parse
  parse-damaged bytes more p q e h =
      let (len, b) = BytesBuf.buffer bytes p.buffer in
      let (rl, st, loop, same) = finish-err len b _ _ q h in
      let t =
        loop-Stopped (BytesBuf.len b) (BytesBuf.len b) b.bytes 0 p.callback e rl st (omega arith)
          loop in
      parse_bad more q t.first t.others t.source e
        (ap (λ q. q.buffer.bytes) same ∙ drain-Stopped b rl e t) t.lasting t.fails
