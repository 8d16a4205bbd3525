-- ===== src/Chunk/Reader/Headers.antt =====
-- Reading a header, however the system cuts and interrupts the reads.
use pinenut.Prelude.{
  ℕ, zero, suc, ◌+◌, ◌-◌, ◌≤◌, ◌<◌, ◌≡◌, refl, sym, ap, ◌∙◌, arith, List, [], ◌∷◌, ◌++◌, append-nil,
  append_assoc, length, length-append, length-drop, take, drop, take-append-drop, take_all,
  take-append_le, drop-append_le, min, All, true, false, ltb, ◌⊎◌, inl, inr, Option, none, some,
  Result, ok, err, Fault,
}
use pinenut.Errors.{interrupted, other}
use pinenut.Common.LittleEndian.{from_le_bytes}
use pinenut.Chunk.{Header, header, header_bytes, validate_header, chunk_magic}
use pinenut.Chunk.Layout.{IsHeader, header-bytes, length-header_bytes}
use pinenut.Chunk.Reader.{
  ReadError, Event, short, fails, File, read, header_step, check_header, read_header_loop,
  read_header_or_reach_to_end,
}

-- An event after which reading goes on.
abbrev pub Mild : Event → Type 0
Mild (short n) = Unit
Mild (fails interrupted) = Unit
Mild (fails (other n)) = ⊥

-- What a call of `read` makes of a mild file that is not at its end: it is interrupted, or reads
-- at least a byte.
pub record Interrupted (len : ℕ) (file : File) : Type 0 where
  pub after : File
  pub returns : read len file ≡ (err interrupted, after)
  pub same_ahead : after.ahead ≡ file.ahead
  pub same_seeks : after.seeks ≡ file.seeks
  pub fewer : length after.events < length file.events
  pub mild : All Mild after.events

pub record Got (len : ℕ) (file : File) : Type 0 where
  pub k : ℕ
  pub events : List Event
  pub returns :
      read len file
      ≡ (ok (take k file.ahead), record file { ahead = drop k file.ahead; events = events })
  pub some_bytes : 1 ≤ k
  pub no_more : k ≤ len
  pub no_longer : length events ≤ length file.events
  pub mild : All Mild events

pub read-cases :
    (len : ℕ) (file : File) → 1 ≤ len → All Mild file.events → Interrupted len file ⊎ Got len file
unfolding read
read-cases len file h m = go file.events refl m
  where
    go : (es : List Event) → file.events ≡ es → All Mild es → Interrupted len file ⊎ Got len file
    go [] e m = inr (record {
      k = len;
      events = [];
      returns = rw e refl;
      some_bytes = h;
      no_more = omega arith;
      no_longer = omega arith;
      mild = tt;
    })
    go (short n ∷ es) e m = inr (record {
      k = min len (suc n);
      events = es;
      returns = rw e refl;
      some_bytes = omega arith;
      no_more = omega arith;
      no_longer = omega (arith, ap length e);
      mild = m.1;
    })
    go (fails interrupted ∷ es) e m = inl (record {
      after = record file { events = es };
      returns = rw e refl;
      same_ahead = refl;
      same_seeks = refl;
      fewer = omega (arith, ap length e);
      mild = m.1;
    })
    go (fails (other n) ∷ es) e m = absurd (m.0)

-- The bytes of a header are all read, and the file is behind them.
record Whole (fuel : ℕ) (bytes todo more : List ℕ) (file : File) : Type 0 where
  after : File
  returns : read_header_loop fuel bytes file ≡ check_header (bytes ++ todo) after
  ahead : after.ahead ≡ more
  same_seeks : after.seeks ≡ file.seeks
  mild : All Mild after.events

read_header_loop-Whole :
    (fuel : ℕ) (bytes todo more : List ℕ) (file : File)
    → length (bytes ++ todo) ≡ 60
    → file.ahead ≡ todo ++ more
    → length todo + length file.events + 1 ≤ fuel
    → All Mild file.events
    → Whole fuel bytes todo more file
unfolding read_header_loop header_step
read_header_loop-Whole zero bytes todo more file size ahead h m = absurd (omega arith)
read_header_loop-Whole (suc fuel) bytes [] more file size ahead h m =
    let full : ltb (length bytes) 60 ≡ false = ground (arith, length-append bytes []) in
    record {
      after = file;
      returns = rw (full, append-nil bytes) refl;
      ahead = ahead;
      same_seeks = refl;
      mild = m;
    }
read_header_loop-Whole (suc fuel) bytes (t ∷ todo) more file size ahead h m =
    let n = 60 - length bytes in
    let total = length-append bytes (t ∷ todo) in
    let room : ltb (length bytes) 60 ≡ true = ground (arith, total) in
    elim (read-cases n file (omega (arith, total)) m) [
      | inl i ↦
          let w =
            read_header_loop-Whole fuel bytes (t ∷ todo) more i.after size (i.same_ahead ∙ ahead)
              (omega (arith, i.fewer)) i.mild in
          record {
            after = w.after;
            returns = rw (room, i.returns) w.returns;
            ahead = w.ahead;
            same_seeks = w.same_seeks ∙ i.same_seeks;
            mild = w.mild;
          }
      | inr g ↦
          let fits : g.k ≤ length (t ∷ todo) = omega (arith, total, g.no_more) in
          let took = ap (take g.k) ahead ∙ take-append_le g.k (t ∷ todo) more fits in
          let left = ap (drop g.k) ahead ∙ drop-append_le g.k (t ∷ todo) more fits in
          go g.k g.events g.returns g.some_bytes g.no_longer g.mild fits took left
            (λ bytes todo file. read_header_loop-Whole fuel bytes todo more file)
    ]
  where
    go :
        (k : ℕ) (events : List Event)
        → read (60 - length bytes) file
          ≡ (ok (take k file.ahead), record file { ahead = drop k file.ahead; events = events })
        → 1 ≤ k
        → length events ≤ length file.events
        → All Mild events
        → k ≤ length (t ∷ todo)
        → take k file.ahead ≡ take k (t ∷ todo)
        → drop k file.ahead ≡ drop k (t ∷ todo) ++ more
        → ((bytes todo : List ℕ) (file : File)
            → length (bytes ++ todo) ≡ 60
            → file.ahead ≡ todo ++ more
            → length todo + length file.events + 1 ≤ fuel
            → All Mild file.events
            → Whole fuel bytes todo more file)
        → Whole (suc fuel) bytes (t ∷ todo) more file
    go zero events returns pos le mild fits took left again = absurd (omega arith)
    go (suc k) events returns pos le mild fits took left again =
        let next : File = record file { ahead = drop (suc k) file.ahead; events = events } in
        let bytes' = bytes ++ (t ∷ take k todo) in
        let whole : bytes' ++ drop k todo ≡ bytes ++ (t ∷ todo) =
          append_assoc bytes (t ∷ take k todo) (drop k todo)
          ∙ ap (λ l. bytes ++ (t ∷ l)) (take-append-drop k todo) in
        let room : ltb (length bytes) 60 ≡ true = ground (arith, length-append bytes (t ∷ todo)) in
        let w =
          again bytes' (drop k todo) next (ap length whole ∙ size) left
            (omega (arith, length-drop k todo)) mild in
        record {
          after = w.after;
          returns = rw (room, returns, took) (w.returns ∙ ap (λ l. check_header l w.after) whole);
          ahead = w.ahead;
          same_seeks = w.same_seeks;
          mild = w.mild;
        }

-- What a reader makes of a file whose position is before a header.
pub record ReadsHeader (result : Result (Fault ReadError) (Option Header)) (more : List ℕ)
    (file : File) : Type 0 where
  pub after : File
  pub returns : read_header_or_reach_to_end file ≡ (result, after)
  pub ahead : after.ahead ≡ more
  pub same_seeks : after.seeks ≡ file.seeks
  pub mild : All Mild after.events

-- A header of well-formed fields with the magic number is read back from its bytes, however the reads
-- are cut and interrupted as long as none fails, and the file is then at what follows the header.
pub read_header-ReadsHeader :
    (h : Header) (more : List ℕ) (file : File)
    → IsHeader h
    → from_le_bytes h.magic ≡ chunk_magic
    → file.ahead ≡ header_bytes h ++ more
    → All Mild file.events
    → ReadsHeader (ok (some h)) more file
unfolding read_header_or_reach_to_end check_header validate_header
read_header-ReadsHeader h more file w magic ahead mild =
    let size = length-header_bytes h w in
    let r =
      read_header_loop-Whole (62 + length file.events) [] (header_bytes h) more file size ahead
        (omega (arith, size)) mild in
    let same : header (header_bytes h) ≡ h =
      ap header (sym (append-nil (header_bytes h))) ∙ header-bytes h [] w in
    record {
      after = r.after;
      returns = r.returns ∙ rw same (ground (arith, magic));
      ahead = r.ahead;
      same_seeks = r.same_seeks;
      mild = r.mild;
    }

-- The loop at the end of the file.
loop-end :
    (fuel : ℕ) (file : File)
    → file.ahead ≡ []
    → length file.events < fuel
    → All Mild file.events
    → (after : File) × (read_header_loop fuel [] file ≡ (ok none, after))
unfolding read_header_loop header_step
loop-end zero file ahead h m = absurd (omega arith)
loop-end (suc fuel) file ahead h m = elim (read-cases 60 file (omega arith) m) [
  | inl i ↦
      let (after, e) =
        loop-end fuel i.after (i.same_ahead ∙ ahead) (omega (arith, i.fewer)) i.mild in
      (after, rw i.returns e)
  | inr g ↦
      let nothing : take g.k file.ahead ≡ [] =
        ap (take g.k) ahead ∙ take_all g.k [] (omega arith) in
      (record file { ahead = drop g.k file.ahead; events = g.events }, rw (g.returns, nothing) refl)
]

-- At the end of the file there is no header and no error, however the reads are interrupted as long
-- as none fails.
pub read_header-end :
    (file : File)
    → file.ahead ≡ []
    → All Mild file.events
    → (after : File) × (read_header_or_reach_to_end file ≡ (ok none, after))
unfolding read_header_or_reach_to_end
read_header-end file ahead mild = loop-end (62 + length file.events) file ahead (omega arith) mild
