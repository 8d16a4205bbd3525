-- ===== src/Runs/Buffer.antt =====
-- The theorems on the double buffer at a memory of thirteen bytes.
use pinenut.Prelude.{ℕ, refl, arith, List, [], ◌∷◌}
use pinenut.Common.LittleEndian.{to_le_bytes, from_le_bytes}
use pinenut.Buffer.{left, right, raw, write_slice}
use pinenut.Buffer.Sides.{IsBuffer, Switched, switch-Switched}
use pinenut.Buffer.Writes.{Isolated, write_slice-Isolated}

-- Right comes first; each side has two bytes, and one is left over.
abbrev pair : List ℕ
pair = 0x7B ∷ 0xCA ∷ 0xED ∷ 0xFE ∷ 0xEF ∷ 0x0D ∷ 0 ∷ 0 ∷ 1 ∷ 2 ∷ 3 ∷ 4 ∷ 5 ∷ []

pair-IsBuffer : IsBuffer right pair
unfolding raw to_le_bytes from_le_bytes
pair-IsBuffer = record { long = omega arith; magic = refl; side = refl }

switch-Switched_example : Switched right pair
switch-Switched_example = switch-Switched right pair pair-IsBuffer

write_slice-Isolated_example :
    Isolated right left 1 (9 ∷ []) pair (write_slice left 1 (9 ∷ []) pair)
write_slice-Isolated_example =
    write_slice-Isolated right left 1 (9 ∷ []) pair pair-IsBuffer (omega arith)
