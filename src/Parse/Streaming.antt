-- ===== src/Parse/Streaming.antt =====
-- `RecordParser` on a stream of records that comes in pieces of any sizes.
pub mod Loop
use pinenut.Prelude.{
  ℕ, zero, suc, ◌-◌, ◌≤◌, ◌<◌, ◌≡◌, refl, ap, ap₂, subst, map, sym, ◌∙◌, arith, List, [], ◌∷◌, ◌++◌,
  append_assoc, length, length-append, length-drop, drop-append, take-append-drop, take, drop,
  concat, min, All, some, ◌⊎◌, inl, inr,
}
use pinenut.Prelude.{ok, Exec, pure, ◌>>◌, >>=-eq-ok}
use pinenut.Chrono.{Chrono, IsChrono}
use pinenut.Record.{Record}
use pinenut.Codec.{decode_record}
use pinenut.Codec.Values.{IsRecord, IsSinceEpoch, record_bytes}
use pinenut.Codec.RoundTrip.{decode_record-bytes}
use pinenut.Codec.Truncated.{RunsOut, decode_record-prefix}
use pinenut.Common.BytesBuf
use pinenut.Common.BytesBuf.{BytesBuf}
use pinenut.Errors.{IoError}
use pinenut.Parse.RecordParser.{
  RecordParser, Outcome, after_callback, after_decode, parse_loop, finish, parse, after_parse,
  parse_all, after_feed, feed,
}
use pinenut.Parse.Split.{stream, IsCut, Split, split, append_cut}
pub use pinenut.Parse.Streaming.Loop.{Fits, call_all, call_all-split}
use pinenut.Parse.Streaming.Loop.{Running, loop_records, Waits-of_cut, All-split}

module _ {c : Chrono} (laws : IsChrono c) {C : Type 0}
    (callback : Record c → Exec C IoError (Unit {0})) (cap : ℕ) where
  abbrev pub parser : List ℕ → C → RecordParser C
  parser held st = record { callback = st; buffer = record { capacity = cap; bytes = held } }

  -- What one call of `parse` does: it takes some of the bytes, calls back the records that are complete,
  -- and holds the rest.
  record Parsed (held bytes ahead : List ℕ) (st st' : C) : Type 0 where
    taken : ℕ
    held' : List ℕ
    mid : C
    later : List (Record c)
    result : parse c callback bytes (parser held st) ≡ some (ok taken, parser held' mid)
    progress : 1 ≤ taken
    within : taken ≤ length bytes
    running : Running laws callback cap held' (drop taken bytes ++ ahead) later mid st'

  held-lt-cap :
      (held bytes ahead : List ℕ) (rs : List (Record c)) (st st' : C)
      → 0 < length bytes
      → Running laws callback cap held (bytes ++ ahead) rs st st'
      → length held < cap
  unfolding stream
  held-lt-cap held bytes ahead [] st st' h run = absurd (
      omega
        (arith, ap length run.same, length-append held (bytes ++ ahead), length-append bytes ahead))
  held-lt-cap held bytes ahead (r ∷ rs) st st' h run = omega (arith, run.cut, run.fits.0.short)

  drain-held :
      (front whole held : List ℕ)
      → front ≡ whole ++ held
      → BytesBuf.drain (length front - length held) (record { capacity = cap; bytes = front })
        ≡ record { capacity = cap; bytes = held }
  unfolding BytesBuf.drain
  drain-held front whole held e =
      let n : min (length front - length held) (length front) ≡ length whole =
        omega (arith, ap length e, length-append whole held) in
      let p : drop (min (length front - length held) (length front)) front ≡ held =
        rw n (ap (drop (length whole)) e ∙ drop-append (length whole) whole held refl) in
      ap (λ bs. record { capacity = cap; bytes = bs }) p

  finish-held :
      (n : ℕ) (front whole held : List ℕ) (st : C)
      → front ≡ whole ++ held
      → finish c callback n
          (record { capacity = cap; bytes = front })
          (some (ok tt, length front - length held, st))
        ≡ some (ok n, parser held st)
  unfolding finish
  finish-held n front whole held st e =
      ap (λ b. some (ok n, record { callback = st; buffer = b })) (drain-held front whole held e)

  parse-buffered :
      (held bytes : List ℕ) (st : C) (n : ℕ)
      → n ≡ min (length bytes) (cap - length held)
      → parse c callback bytes (parser held st)
        ≡ finish c callback n
            (record { capacity = cap; bytes = held ++ take n bytes })
            (parse_loop c callback
              (length (held ++ take n bytes))
              (length (held ++ take n bytes))
              (held ++ take n bytes)
              0
              st)
  unfolding parse BytesBuf.buffer
  parse-buffered held bytes st n e = rw e

  -- The loop over the bytes in the buffer, when they are the beginning of a stream of records.
  record Looped (front held back : List ℕ) (later : List (Record c)) (st st' : C) : Type 0 where
    mid : C
    loop :
        parse_loop c callback (length front) (length front) front 0 st
        ≡ some (ok tt, length front - length held, mid)
    running : Running laws callback cap held back later mid st'

  Split-Looped :
      (front back : List ℕ) (rs : List (Record c)) (st st' : C) (s : Split c front back rs)
      → All (Fits laws callback cap) rs
      → call_all laws callback cap rs st ≡ (ok tt, st')
      → Looped front s.held back s.later st st'
  Split-Looped front back rs st st' s fits calls =
      let (fits1, fits2) =
        All-split laws callback cap s.whole s.later
          (subst (All (Fits laws callback cap)) s.records fits) in
      let (mid, calls1, calls2) =
        call_all-split laws callback cap s.whole s.later st st'
          (ap (λ l. call_all laws callback cap l st) (sym s.records) ∙ calls) in
      let waits = Waits-of_cut laws callback cap s.held back s.later s.ahead s.cut fits2 in
      record {
        mid = mid;
        loop =
            ap (λ src. parse_loop c callback (length front) (length front) src 0 st) s.bytes
            ∙ loop_records laws callback cap s.whole s.held (length front) (length front) 0 st mid
                fits1 waits (omega (arith, ap length s.bytes)) (omega (arith, ap length s.bytes))
                calls1;
        running = record { same = s.ahead; cut = s.cut; fits = fits2; calls = calls2 };
      }

  parse-Parsed :
      (held bytes ahead : List ℕ) (rs : List (Record c)) (st st' : C)
      → 0 < length bytes
      → Running laws callback cap held (bytes ++ ahead) rs st st'
      → Parsed held bytes ahead st st'
  parse-Parsed held bytes ahead rs st st' h run =
      let n = min (length bytes) (cap - length held) in
      let same : (held ++ take n bytes) ++ (drop n bytes ++ ahead) ≡ stream c rs =
        append_assoc held (take n bytes) (drop n bytes ++ ahead)
        ∙ ap (λ t. held ++ t) (sym (append_assoc (take n bytes) (drop n bytes) ahead))
        ∙ ap (λ t. held ++ (t ++ ahead)) (take-append-drop n bytes)
        ∙ run.same in
      go n (omega (arith, held-lt-cap held bytes ahead rs st st' h run)) (omega arith) refl
        (split c (held ++ take n bytes) (drop n bytes ++ ahead) rs same)
    where
      go :
          (n : ℕ)
          → 1 ≤ n
          → n ≤ length bytes
          → n ≡ min (length bytes) (cap - length held)
          → Split c (held ++ take n bytes) (drop n bytes ++ ahead) rs
          → Parsed held bytes ahead st st'
      go n pos within e s =
          let looped =
            Split-Looped (held ++ take n bytes) (drop n bytes ++ ahead) rs st st' s run.fits
              run.calls in
          record {
            taken = n;
            held' = s.held;
            mid = looped.mid;
            later = s.later;
            result =
                parse-buffered held bytes st n e
                ∙ ap (finish c callback n (record { capacity = cap; bytes = held ++ take n bytes }))
                    looped.loop
                ∙ finish-held n (held ++ take n bytes) (stream c s.whole) s.held looped.mid s.bytes;
            progress = pos;
            within = within;
            running = looped.running;
          }

  -- A call of `parse_all` that is given the next bytes of a stream takes them all.
  record Fed (held bytes ahead : List ℕ) (st st' : C) (fuel : ℕ) : Type 0 where
    held' : List ℕ
    mid : C
    later : List (Record c)
    result : parse_all c callback fuel bytes (parser held st) ≡ some (ok tt, parser held' mid)
    running : Running laws callback cap held' ahead later mid st'

  parse_all-Fed :
      (fuel : ℕ) (held bytes ahead : List ℕ) (rs : List (Record c)) (st st' : C)
      → length bytes ≤ fuel
      → Running laws callback cap held (bytes ++ ahead) rs st st'
      → Fed held bytes ahead st st' fuel
  unfolding parse_all after_parse
  parse_all-Fed fuel held [] ahead rs st st' h run = record {
    held' = held;
    mid = st;
    later = rs;
    result = refl;
    running = run;
  }
  parse_all-Fed zero held (b ∷ bs) ahead rs st st' h run = absurd (omega arith)
  parse_all-Fed (suc fuel) held (b ∷ bs) ahead rs st st' h run =
      let p = parse-Parsed held (b ∷ bs) ahead rs st st' (omega arith) run in
      let f =
        parse_all-Fed fuel p.held' (drop p.taken (b ∷ bs)) ahead p.later p.mid st'
          (omega (arith, p.progress, p.within, length-drop p.taken (b ∷ bs))) p.running in
      record {
        held' = f.held';
        mid = f.mid;
        later = f.later;
        result = rw p.result f.result;
        running = f.running;
      }

  IsCut-nil : (rs : List (Record c)) → IsCut c [] rs
  IsCut-nil [] = refl
  IsCut-nil (r ∷ rs) = omega arith

  Running-end :
      (held : List ℕ) (rs : List (Record c)) (st st' : C)
      → Running laws callback cap held [] rs st st'
      → (held ≡ []) × (st ≡ st')
  unfolding stream
  Running-end held [] st st' run = (run.cut, cc (run.calls))
  Running-end held (r ∷ rs) st st' run = absurd (
      omega (
        arith,
        run.cut,
        ap length run.same,
        length-append held [],
        length-append (record_bytes c r) (concat (map (record_bytes c) rs)),
      ))

  feed-Running :
      (pieces : List (List ℕ)) (held : List ℕ) (rs : List (Record c)) (st st' : C)
      → Running laws callback cap held (concat pieces) rs st st'
      → feed c callback pieces (parser held st) ≡ some (ok tt, parser [] st')
  unfolding feed after_feed
  feed-Running [] held rs st st' run =
      let (p, q) = Running-end held rs st st' run in ap₂ (λ h t. some (ok tt, parser h t)) p q
  feed-Running (piece ∷ pieces) held rs st st' run =
      let f = parse_all-Fed (length piece) held piece (concat pieces) rs st st' (omega arith) run in
      rw f.result (feed-Running pieces f.held' f.later f.mid st' f.running)

  pub feed-stream :
      (rs : List (Record c)) (pieces : List (List ℕ)) (st st' : C)
      → All (Fits laws callback cap) rs
      → concat pieces ≡ stream c rs
      → call_all laws callback cap rs st ≡ (ok tt, st')
      → feed c callback pieces (parser [] st) ≡ some (ok tt, parser [] st')
  feed-stream rs pieces st st' fits same calls =
      feed-Running pieces [] rs st st'
        (record { same = same; cut = IsCut-nil rs; fits = fits; calls = calls })
