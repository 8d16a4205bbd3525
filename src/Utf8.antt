-- ===== src/Utf8.antt =====
-- `str::from_utf8` of the standard library: well-formed UTF-8, byte by byte.
use mathlib.Core.List.{foldl}
use pinenut.Prelude.{ℕ, zero, suc, List, Bool, true, false, ◌&&◌, leb, if◌then◌else◌}

-- What may come next: `start` a new character, `tail` with the range of the next continuation byte
-- and the number of those after it, `bad` nothing.
pub data State : Type 0 where
  start bad : State
  tail : ℕ → ℕ → ℕ → State

within : ℕ → ℕ → ℕ → Bool
within lo hi b = leb lo b && leb b hi

lead : ℕ → State
unfolding within
lead b =
    if leb b 0x7f
    then start
    else if within 0xc2 0xdf b
    then tail 0x80 0xbf 0
    else if leb b 0xdf
    then bad
    else if leb b 0xe0
    then tail 0xa0 0xbf 1
    else if leb b 0xec
    then tail 0x80 0xbf 1
    else if leb b 0xed
    then tail 0x80 0x9f 1
    else if leb b 0xef
    then tail 0x80 0xbf 1
    else if leb b 0xf0
    then tail 0x90 0xbf 2
    else if leb b 0xf3
    then tail 0x80 0xbf 2
    else if leb b 0xf4
    then tail 0x80 0x8f 2
    else bad

next_tail : ℕ → State
next_tail zero = start
next_tail (suc n) = tail 0x80 0xbf n

step : State → ℕ → State
unfolding lead next_tail
step start b = lead b
step bad b = bad
step (tail lo hi more) b = if within lo hi b then next_tail more else bad

accepts : State → Bool
accepts start = true
accepts bad = false
accepts (tail lo hi more) = false

unfoldable pub is_utf8 : List ℕ → Bool
unfolding step accepts
is_utf8 bytes = accepts (foldl step start bytes)
