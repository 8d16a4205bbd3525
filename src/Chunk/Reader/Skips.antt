-- ===== src/Chunk/Reader/Skips.antt =====
-- `Reader::skip` of pinenut/src/chunk.rs, when seeks do not fail.
use pinenut.Prelude.{ℕ, ◌≡◌, refl, List, [], ◌∷◌, drop, Option, none, some, All, ok}
use pinenut.Errors.{IoError}
use pinenut.Chunk.Reader.{File, seek, skip}
use pinenut.Chunk.Reader.Payload.{Succeeds}

-- A skip, when seeks do not fail.
pub record Skips (n : ℕ) (file : File) : Type 0 where
  pub after : File
  pub returns : skip n file ≡ (ok tt, after)
  pub behind : after.ahead ≡ drop n file.ahead
  pub same_events : after.events ≡ file.events
  pub succeed : All Succeeds after.seeks

pub skip-Skips : (n : ℕ) (file : File) → All Succeeds file.seeks → Skips n file
unfolding skip seek
skip-Skips n file h = go file.seeks refl h
  where
    go : (seeks : List (Option IoError)) → file.seeks ≡ seeks → All Succeeds seeks → Skips n file
    go [] e s = record {
      after = record file { ahead = drop n file.ahead };
      returns = rw e refl;
      behind = refl;
      same_events = refl;
      succeed = h;
    }
    go (none ∷ seeks) e s = record {
      after = record file { ahead = drop n file.ahead; seeks = seeks };
      returns = rw e refl;
      behind = refl;
      same_events = refl;
      succeed = s.1;
    }
    go (some x ∷ seeks) e s = absurd s.0
