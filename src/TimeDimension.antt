-- ===== src/TimeDimension.antt =====
-- `TimeDimension` of pinenut/src/lib.rs, and the dimensions of chunks and files of
-- pinenut/src/logger.rs.
use pinenut.Prelude.{ℕ, ◌≤◌, ◌≡◌, arith, Bool, true, ◌&&◌, leb, if◌then◌else◌, ◌==◌, ℤ, leb_ℤ}
use pinenut.Chrono.{Chrono}

pub data TimeDimension : Type 0 where
  day hour minute : TimeDimension

-- `#[repr(u8)]`, by which the derived order compares.
abbrev pub rank : TimeDimension → ℕ
rank day = 1
rank hour = 2
rank minute = 3

abbrev same_date : ℤ → ℤ → Bool
same_date a b = leb_ℤ a b && leb_ℤ b a

module _ (c : Chrono) where
  unfoldable pub check_match : TimeDimension → c.DateTime → c.DateTime → Bool
  check_match dimension left right =
      let is_matched = true in
      let is_matched =
        if leb (rank day) (rank dimension)
        then is_matched && same_date (c.date left) (c.date right)
        else is_matched in
      let is_matched =
        if leb (rank hour) (rank dimension)
        then is_matched && c.hour left == c.hour right
        else is_matched in
      if leb (rank minute) (rank dimension)
      then is_matched && c.minute left == c.minute right
      else is_matched

-- `Context::file_dimension`
unfoldable pub file_dimension : TimeDimension → TimeDimension
file_dimension minute = hour
file_dimension hour = day
file_dimension day = day

module _ (c : Chrono) where
  -- Moments that match on a dimension match on every coarser one.
  check_match_coarser :
      (fine coarse : TimeDimension) (left right : c.DateTime)
      → rank coarse ≤ rank fine
      → check_match c fine left right ≡ true
      → check_match c coarse left right ≡ true
  unfolding check_match
  check_match_coarser day day left right h m = m
  check_match_coarser day hour left right h m = absurd (omega arith)
  check_match_coarser day minute left right h m = absurd (omega arith)
  check_match_coarser hour day left right h m = ground (arith, m)
  check_match_coarser hour hour left right h m = m
  check_match_coarser hour minute left right h m = absurd (omega arith)
  check_match_coarser minute day left right h m = ground (arith, m)
  check_match_coarser minute hour left right h m = ground (arith, m)
  check_match_coarser minute minute left right h m = m

  -- The records of one chunk belong in one file, and matching passes on: if two records each match the
  -- chunk's start on the chunks' dimension, they match each other on the files' dimension.
  pub check_match-file_dimension :
      (rotation : TimeDimension) (start first second : c.DateTime)
      → check_match c rotation start first ≡ true
      → check_match c rotation start second ≡ true
      → check_match c (file_dimension rotation) first second ≡ true
  unfolding check_match file_dimension
  check_match-file_dimension day start first second p q = ground (arith, p, q)
  check_match-file_dimension hour start first second p q = ground (arith, p, q)
  check_match-file_dimension minute start first second p q = ground (arith, p, q)
