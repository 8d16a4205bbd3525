-- ===== src/Encrypt.antt =====
-- pinenut/src/encrypt.rs: the block encryptor and decryptor. The AES of the crate `aes` and the
-- padding of the crate `cipher` are parameters.
pub mod Sinks
pub mod Stream
pub mod Decrypt
use pinenut.Prelude.{
  ℕ, zero, suc, ◌+◌, ◌*◌, ◌/◌, ◌%◌, ◌≤◌, ◌<◌, ◌≡◌, List, [], ◌∷◌, ◌++◌, length, take, drop, Bool,
  true, false, ◌&&◌, ◌==◌, if◌then◌else◌, Option, none, some, Result, ok, err, Exec, Sink, Fault,
  stuck, raised, map_err, leb, ◌>>=◌, ◌>>◌,
}
use pinenut.Errors.{CipherError, padding}
use pinenut.Common.Memory.{put}
use pinenut.Common.BytesBuf
use pinenut.Common.BytesBuf.{BytesBuf}

abbrev pub block_size : ℕ
block_size = 16

-- What the program calls of the crates for one key: on whole blocks without padding, and PKCS#7.
pub record Aes : Type 0 where
  pub encrypt_blocks : List ℕ → List ℕ
  pub decrypt_blocks : List ℕ → List ℕ
  pub pad : List ℕ → List ℕ
  pub unpad : List ℕ → Option (List ℕ)

abbrev pub IsWhole : List ℕ → Type 0
IsWhole bytes = length bytes % 16 ≡ 0

-- What the crates document: each block is encrypted by itself, decryption undoes it, and the padding
-- has from 1 to 16 bytes, fills the last block and can be removed.
pub record IsAes (aes : Aes) : Type 0 where
  pub encrypt_length : (xs : List ℕ) → IsWhole xs → length (aes.encrypt_blocks xs) ≡ length xs
  pub encrypt-append :
      (xs ys : List ℕ)
      → IsWhole xs
      → aes.encrypt_blocks (xs ++ ys) ≡ aes.encrypt_blocks xs ++ aes.encrypt_blocks ys
  pub decrypt-encrypt : (xs : List ℕ) → IsWhole xs → aes.decrypt_blocks (aes.encrypt_blocks xs) ≡ xs
  pub pad-append : (xs ys : List ℕ) → IsWhole xs → aes.pad (xs ++ ys) ≡ xs ++ aes.pad ys
  pub pad-IsWhole : (xs : List ℕ) → IsWhole (aes.pad xs)
  pub pad_longer : (xs : List ℕ) → length xs < length (aes.pad xs)
  pub pad_short : (xs : List ℕ) → length (aes.pad xs) ≤ length xs + 16
  pub unpad-pad : (xs : List ℕ) → aes.unpad (aes.pad xs) ≡ some xs

-- `EncryptOp`
pub data EncryptOp : Type 0 where
  input : List ℕ → EncryptOp
  flush : EncryptOp

-- The capacities of the two buffers.
abbrev pub encrypt_buffer_len : ℕ
encrypt_buffer_len = 16 * block_size

abbrev pub decrypt_buffer_len : ℕ
decrypt_buffer_len = 64 * block_size

module _ (aes : Aes) {S E : Type 0} (sink : Sink S E) (of_error : CipherError → E) where
  -- `sink.sink(bytes)?` and `self.drain(len)` of `BytesBuf::sink`.
  unfoldable pub drained :
      ℕ → BytesBuf → Result E (Unit {0}) × S → Result (Fault E) (Unit {0}) × (BytesBuf × S)
  drained len b (ok _, s) = (ok tt, (BytesBuf.drain len b, s))
  drained len b (err e, s) = (err (raised e), (b, s))

  unfoldable pub handled :
      ℕ → Result CipherError (List ℕ) → Exec (BytesBuf × S) (Fault E) (Unit {0})
  handled len (err e) st = (err (raised (of_error e)), st)
  handled len (ok []) (b, s) = (ok tt, (BytesBuf.drain len b, s))
  handled len (ok (x ∷ bytes)) (b, s) = drained len b (sink (x ∷ bytes) s)

  -- What a handler writes over the bytes that it is given, which the buffer holds, and its result.
  abbrev pub Handler : Type 0
  Handler = List ℕ → List ℕ × Result CipherError (List ℕ)

  abbrev pub overwrite : List ℕ → BytesBuf → BytesBuf
  overwrite bytes b = record b { bytes = put 0 bytes b.bytes }

  -- `BytesBuf::sink`
  unfoldable pub sink_bytes : Bool → Handler → Exec (BytesBuf × S) (Fault E) (Unit {0})
  sink_bytes pad handle (b, s) =
      let len = if pad then BytesBuf.len b else BytesBuf.len b / block_size * block_size in
      let (in_place, r) = handle (take len b.bytes) in handled len r (overwrite in_place b, s)

  -- The handlers that the code passes to it. The padded bytes must fit the buffer.
  abbrev pub encrypt_handle : Handler
  encrypt_handle bytes = (aes.encrypt_blocks bytes, ok (aes.encrypt_blocks bytes))

  abbrev pub pad_handle : ℕ → Handler
  pad_handle capacity bytes =
      if leb (length (aes.pad bytes)) capacity
      then encrypt_handle (aes.pad bytes)
      else (bytes, err padding)

  abbrev pub unpad_or_error : Option (List ℕ) → Result CipherError (List ℕ)
  unpad_or_error none = err padding
  unpad_or_error (some bytes) = ok bytes

  abbrev pub decrypt_handle : Bool → Handler
  decrypt_handle reached_to_end bytes =
      let blocks = aes.decrypt_blocks bytes in
      if reached_to_end
      then if length bytes % block_size == 0
        then (blocks, unpad_or_error (aes.unpad blocks))
        else (bytes, err padding)
      else (blocks, ok blocks)

  -- `while !input.is_empty()` in `Encryptor::encrypt`
  unfoldable pub encrypt_loop : ℕ → List ℕ → Exec (BytesBuf × S) (Fault E) (Unit {0})
  encrypt_loop fuel [] st = (ok tt, st)
  encrypt_loop zero (x ∷ xs) st = (err stuck, st)
  encrypt_loop (suc fuel) (x ∷ xs) (b, s) =
      let (buffered, b') = BytesBuf.buffer (x ∷ xs) b in
      (sink_bytes false encrypt_handle >> encrypt_loop fuel (drop buffered (x ∷ xs))) (b', s)

  unfoldable pub encrypt : EncryptOp → Exec (BytesBuf × S) (Fault E) (Unit {0})
  encrypt (input bytes) st = encrypt_loop (length bytes) bytes st
  encrypt flush (b, s) = sink_bytes true (pad_handle b.capacity) (b, s)

  -- `while !input.is_empty()` in `Decryptor::decrypt`
  unfoldable pub decrypt_loop : ℕ → Bool → List ℕ → Exec (BytesBuf × S) (Fault E) (Unit {0})
  decrypt_loop fuel reached_to_end [] st = (ok tt, st)
  decrypt_loop zero reached_to_end (x ∷ xs) st = (err stuck, st)
  decrypt_loop (suc fuel) reached_to_end (x ∷ xs) (b, s) =
      let (buffered, b') = BytesBuf.buffer (x ∷ xs) b in
      let last = reached_to_end && buffered == length (x ∷ xs) in
      (sink_bytes last (decrypt_handle last)
          >> decrypt_loop fuel reached_to_end (drop buffered (x ∷ xs)))
        (b', s)

  unfoldable pub decrypt : Bool → List ℕ → Exec (BytesBuf × S) (Fault E) (Unit {0})
  decrypt reached_to_end bytes = decrypt_loop (length bytes) reached_to_end bytes

  -- `Encryptor` and `Decryptor` for `Option<T>`: without a key the bytes pass.
  unfoldable pub passed : Exec S E (Unit {0}) → Exec (BytesBuf × S) (Fault E) (Unit {0})
  passed m (b, s) = let (r, s') = m s in (map_err raised r, (b, s'))

  unfoldable pub encrypt_optional : Bool → EncryptOp → Exec (BytesBuf × S) (Fault E) (Unit {0})
  encrypt_optional true operation st = encrypt operation st
  encrypt_optional false (input bytes) st = passed (sink bytes) st
  encrypt_optional false flush st = (ok tt, st)

  unfoldable pub decrypt_optional : Bool → Bool → List ℕ → Exec (BytesBuf × S) (Fault E) (Unit {0})
  decrypt_optional true reached_to_end bytes st = decrypt reached_to_end bytes st
  decrypt_optional false reached_to_end bytes st = passed (sink bytes) st
