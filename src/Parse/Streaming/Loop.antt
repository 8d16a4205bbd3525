-- ===== src/Parse/Streaming/Loop.antt =====
-- The loop of `RecordParser` over records that are complete, and over the beginning of one.
use pinenut.Prelude.{
  ℕ, zero, suc, ◌-◌, ◌≤◌, ◌≡◌, refl, ap, ◌∙◌, arith, List, [], ◌∷◌, ◌++◌, append_assoc, length,
  length-append, All, some, ◌⊎◌, inl, inr,
}
use pinenut.Prelude.{ok, Exec, pure, ◌>>◌, >>=-eq-ok}
use pinenut.Chrono.{Chrono, IsChrono}
use pinenut.Record.{Record}
use pinenut.Codec.{decode_record}
use pinenut.Codec.Values.{IsRecord, IsSinceEpoch, record_bytes}
use pinenut.Codec.RoundTrip.{decode_record-bytes}
use pinenut.Codec.Truncated.{RunsOut, decode_record-prefix}
use pinenut.Errors.{IoError}
use pinenut.Parse.RecordParser.{Outcome, after_callback, after_decode, parse_loop}
use pinenut.Parse.Split.{stream, IsCut, append_cut}

module _ {c : Chrono} (laws : IsChrono c) {C : Type 0}
    (callback : Record c → Exec C IoError (Unit {0})) (cap : ℕ) where
  open c use {timestamp}

  -- The callback on each record in order, up to its first error.
  abbrev pub call_all : List (Record c) → Exec C IoError (Unit {0})
  call_all [] = pure tt
  call_all (r ∷ rs) = do callback r; call_all rs

  -- A record that a program can log, no longer than the parser's buffer.
  pub record Fits (r : Record c) : Type 0 where
    pub valid : IsRecord c r
    pub since_epoch : IsSinceEpoch (timestamp r.meta.datetime)
    pub short : length (record_bytes c r) ≤ cap

  loop_step :
      (fuel len read_len : ℕ) (st : C) (r : Record c) (rest : List ℕ)
      → Fits r
      → parse_loop c callback (suc fuel) len (record_bytes c r ++ rest) read_len st
        ≡ after_callback c callback
            (parse_loop c callback fuel len rest)
            (len - length rest)
            (callback r st)
  unfolding parse_loop after_decode
  loop_step fuel len read_len st r rest h =
      ap (after_decode c callback (parse_loop c callback fuel len) len read_len st)
        (decode_record-bytes laws r rest h.valid h.since_epoch)

  pub Waits : List ℕ → Type 0
  Waits held = (held ≡ []) ⊎ RunsOut (decode_record c) held

  loop-Waits :
      (fuel len : ℕ) (held : List ℕ) (read_len : ℕ) (st : C)
      → length held ≤ fuel
      → Waits held
      → parse_loop c callback fuel len held read_len st ≡ some (ok tt, read_len, st)
  unfolding parse_loop Waits after_decode
  loop-Waits fuel len [] read_len st h w = refl
  loop-Waits zero len (b ∷ bs) read_len st h w = absurd (omega arith)
  loop-Waits (suc fuel) len (b ∷ bs) read_len st h (inl e) = cc
  loop-Waits (suc fuel) len (b ∷ bs) read_len st h (inr (n, rest, e)) = rw e

  after-ok :
      (next : ℕ → C → Outcome C) (n : ℕ) (u : Unit {0}) (st : C)
      → after_callback c callback next n (ok u, st) ≡ next n st
  unfolding after_callback
  after-ok next n u st = refl

  pub loop_records :
      (whole : List (Record c)) (held : List ℕ) (fuel len read_len : ℕ) (st st' : C)
      → All Fits whole
      → Waits held
      → length (stream c whole ++ held) ≤ fuel
      → read_len ≡ len - length (stream c whole ++ held)
      → call_all whole st ≡ (ok tt, st')
      → parse_loop c callback fuel len (stream c whole ++ held) read_len st
        ≡ some (ok tt, len - length held, st')
  unfolding stream
  loop_records [] held fuel len read_len st st' h w hf hr calls =
      loop-Waits fuel len held read_len st hf w ∙ cc (hr, calls)
  loop_records (r ∷ whole) held zero len read_len st st' h w hf hr calls = absurd (omega arith)
  loop_records (r ∷ whole) held (suc fuel) len read_len st st' h w hf hr calls =
      let rest = stream c whole ++ held in
      let (u, st1, one, more) = >>=-eq-ok (callback r) (λ _. call_all whole) st calls in
      let size = length-append (record_bytes c r) rest in
      let assoc = append_assoc (record_bytes c r) (stream c whole) held in
      let pos : 1 ≤ length (record_bytes c r) = omega arith in
      ap (λ src. parse_loop c callback (suc fuel) len src read_len st) assoc
      ∙ loop_step fuel len read_len st r rest h.0
      ∙ ap (after_callback c callback (parse_loop c callback fuel len rest) (len - length rest)) one
      ∙ after-ok (parse_loop c callback fuel len rest) (len - length rest) u st1
      ∙ loop_records whole held fuel len (len - length rest) st1 st' h.1 w
          (omega (arith, size, ap length assoc)) refl more

  -- What is still to come: the bytes held and those ahead are the records `rs`, on which the callback
  -- goes from `st` to `st'`.
  pub record Running (held ahead : List ℕ) (rs : List (Record c)) (st st' : C) : Type 0 where
    pub same : held ++ ahead ≡ stream c rs
    pub cut : IsCut c held rs
    pub fits : All Fits rs
    pub calls : call_all rs st ≡ (ok tt, st')

  pub Waits-of_cut :
      (held ahead : List ℕ) (rs : List (Record c))
      → held ++ ahead ≡ stream c rs
      → IsCut c held rs
      → All Fits rs
      → Waits held
  unfolding stream Waits
  Waits-of_cut held ahead [] e cut h = inl cut
  Waits-of_cut held ahead (r ∷ rs) e cut h =
      let (ws, p, q) = append_cut held ahead (record_bytes c r) (stream c rs) e (omega arith) in
      go ws p
    where
      go :
          (ws : List ℕ)
          → record_bytes c r ≡ held ++ ws
          → (held ≡ []) ⊎ RunsOut (decode_record c) held
      go [] p = absurd (omega (arith, ap length p, length-append held []))
      go (x ∷ back) p = inr (decode_record-prefix laws r held x back h.0.valid h.0.since_epoch p)

  pub call_all-split :
      (whole later : List (Record c)) (st st' : C)
      → call_all (whole ++ later) st ≡ (ok tt, st')
      → (mid : C) × (call_all whole st ≡ (ok tt, mid)) × (call_all later mid ≡ (ok tt, st'))
  call_all-split [] later st st' h = (st, refl, h)
  call_all-split (r ∷ whole) later st st' h =
      let (u, st1, one, more) = >>=-eq-ok (callback r) (λ _. call_all (whole ++ later)) st h in
      let (mid, p, q) = call_all-split whole later st1 st' more in (mid, rw one p, q)

  pub All-split :
      (whole later : List (Record c)) → All Fits (whole ++ later) → All Fits whole × All Fits later
  All-split [] later h = (tt, h)
  All-split (r ∷ whole) later h = let (p, q) = All-split whole later h.1 in ((h.0, p), q)
