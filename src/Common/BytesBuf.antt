-- ===== src/Common/BytesBuf.antt =====
-- `BytesBuf` of pinenut/src/common.rs: a byte buffer of fixed capacity. The spare bytes behind the
-- contents are not modelled: only `aes` writes to them, and its padding is read back at once.
use pinenut.Prelude.{ℕ, ◌-◌, ◌≤◌, List, [], ◌++◌, min, length, take, drop}

pub record BytesBuf : Type 0 where
  pub capacity : ℕ
  pub bytes : List ℕ

unfoldable pub with_capacity : ℕ → BytesBuf
with_capacity capacity = record { capacity = capacity; bytes = [] }

abbrev pub len : BytesBuf → ℕ
len b = length b.bytes

-- As many bytes as there is room for, and how many that were.
unfoldable pub buffer : List ℕ → BytesBuf → ℕ × BytesBuf
buffer bytes b =
    let spare_capacity = b.capacity - len b in
    let buffered = min (length bytes) spare_capacity in
    (buffered, record b { bytes = b.bytes ++ take buffered bytes })

unfoldable pub drain : ℕ → BytesBuf → BytesBuf
drain n b = record b { bytes = drop (min n (len b)) b.bytes }

unfoldable pub clear : BytesBuf → BytesBuf
clear b = record b { bytes = [] }

abbrev pub IsWithin : BytesBuf → Type 0
IsWithin b = len b ≤ b.capacity
