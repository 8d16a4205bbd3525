-- ===== src/Runs/Encrypt.antt =====
-- The theorem on the encryptor for a cipher that adds one to each byte, with the padding PKCS#7.
use pinenut.Prelude.{
  ℕ, zero, suc, ◌+◌, ◌-◌, ◌%◌, ◌≤◌, ◌≡◌, refl, ap, ◌∙◌, arith, List, [], ◌∷◌, ◌++◌, append_assoc,
  map, length, length-append, take, take-append, Option, some, ok, Sink,
}
use mathlib.Core.List.{map-append}
use pinenut.Errors.{CipherError}
use pinenut.Encrypt.{Aes, IsAes}
use pinenut.Encrypt.Decrypt.{Decrypts, decrypt_all, decrypt_all-Decrypts}
use pinenut.Encrypt.Stream.{Encrypts, encrypt_all, encrypt_all-Encrypts}

abbrev up_one : List ℕ → List ℕ
up_one = map suc

abbrev down_one : List ℕ → List ℕ
down_one = map (λ b. b - 1)

abbrev pub repeat : ℕ → ℕ → List ℕ
repeat zero b = []
repeat (suc n) b = b ∷ repeat n b

abbrev missing : List ℕ → ℕ
missing xs = 16 - length xs % 16

abbrev pkcs7 : List ℕ → List ℕ
pkcs7 xs = xs ++ repeat (missing xs) (missing xs)

abbrev last : ℕ → List ℕ → ℕ
last d [] = d
last d (x ∷ xs) = last x xs

abbrev unpkcs7 : List ℕ → Option (List ℕ)
unpkcs7 xs = some (take (length xs - last 0 xs) xs)

length-up_one : (xs : List ℕ) → length (up_one xs) ≡ length xs
length-up_one [] = refl
length-up_one (x ∷ xs) = ap suc (length-up_one xs)

down_one-up_one : (xs : List ℕ) → down_one (up_one xs) ≡ xs
down_one-up_one [] = refl
down_one-up_one (x ∷ xs) =
    let same : suc x - 1 ≡ x = omega arith in
    ap (λ y. y ∷ down_one (up_one xs)) same ∙ ap (λ t. x ∷ t) (down_one-up_one xs)

length-repeat : (n b : ℕ) → length (repeat n b) ≡ n
length-repeat zero b = refl
length-repeat (suc n) b = ap suc (length-repeat n b)

length-pkcs7 : (xs : List ℕ) → length (pkcs7 xs) ≡ length xs + missing xs
length-pkcs7 xs = omega (
  arith,
  length-append xs (repeat (missing xs) (missing xs)),
  length-repeat (missing xs) (missing xs),
)

last-repeat : (d n b : ℕ) → 1 ≤ n → last d (repeat n b) ≡ b
last-repeat d zero b h = absurd (omega arith)
last-repeat d (suc zero) b h = refl
last-repeat d (suc (suc n)) b h = last-repeat b (suc n) b (omega arith)

last-append : (d : ℕ) (xs : List ℕ) (n b : ℕ) → 1 ≤ n → last d (xs ++ repeat n b) ≡ b
last-append d [] n b h = last-repeat d n b h
last-append d (x ∷ xs) n b h = last-append x xs n b h

unpkcs7-pkcs7 : (xs : List ℕ) → unpkcs7 (pkcs7 xs) ≡ some xs
unpkcs7-pkcs7 xs =
    let n = missing xs in
    let size : length (pkcs7 xs) - last 0 (pkcs7 xs) ≡ length xs =
      omega (arith, length-pkcs7 xs, last-append 0 xs n n (omega arith)) in
    ap (λ k. some (take k (pkcs7 xs))) size ∙ ap some (take-append (length xs) xs (repeat n n) refl)

abbrev pub plus : Aes
plus = record { encrypt_blocks = up_one; decrypt_blocks = down_one; pad = pkcs7; unpad = unpkcs7 }

pkcs7-append : (xs ys : List ℕ) → length xs % 16 ≡ 0 → pkcs7 (xs ++ ys) ≡ xs ++ pkcs7 ys
pkcs7-append xs ys h =
    let same : missing (xs ++ ys) ≡ missing ys = omega (arith, h, length-append xs ys) in
    ap (λ n. (xs ++ ys) ++ repeat n n) same ∙ append_assoc xs ys (repeat (missing ys) (missing ys))

pub plus-IsAes : IsAes plus
plus-IsAes = record {
  encrypt_length = λ xs h. length-up_one xs;
  encrypt-append = λ xs ys h. map-append suc xs ys;
  decrypt-encrypt = λ xs h. down_one-up_one xs;
  pad-append = pkcs7-append;
  pad-IsWhole = λ xs. omega (arith, length-pkcs7 xs);
  pad_longer = λ xs. omega (arith, length-pkcs7 xs);
  pad_short = λ xs. omega (arith, length-pkcs7 xs);
  unpad-pad = unpkcs7-pkcs7;
}

abbrev collect : Sink (List ℕ) CipherError
collect bytes held = (ok tt, held ++ bytes)

abbrev same_error : CipherError → CipherError
same_error e = e

encrypt_all-Encrypts_example :
    Encrypts plus-IsAes collect same_error 256 []
      (1 ∷ 2 ∷ 3 ∷ [])
      (encrypt_all plus-IsAes collect same_error 256 ((1 ∷ []) ∷ (2 ∷ 3 ∷ []) ∷ []))
encrypt_all-Encrypts_example =
    encrypt_all-Encrypts plus-IsAes collect same_error 256 ((1 ∷ []) ∷ (2 ∷ 3 ∷ []) ∷ [])
      (omega arith)

decrypt_all-Decrypts_example : Decrypts plus-IsAes collect same_error 1024 [] (1 ∷ 2 ∷ 3 ∷ []) (
    decrypt_all plus-IsAes collect same_error 1024
      ((2 ∷ 3 ∷ 4 ∷ []) ∷ (14 ∷ 14 ∷ 14 ∷ 14 ∷ 14 ∷ []) ∷ repeat 8 14 ∷ []))
decrypt_all-Decrypts_example =
    decrypt_all-Decrypts plus-IsAes collect same_error 1024
      ((2 ∷ 3 ∷ 4 ∷ []) ∷ (14 ∷ 14 ∷ 14 ∷ 14 ∷ 14 ∷ []) ∷ repeat 8 14 ∷ []) (1 ∷ 2 ∷ 3 ∷ [])
      (omega arith) (omega arith, (omega arith, (omega arith, tt))) refl
