-- ===== src/Parse/Keys.antt =====
-- `Processor::obtain_decryptor` of pinenut/src/parse.rs: the keys of chunks, negotiated once for each
-- public key. The negotiation, of the crate `p256`, is a parameter.
use pinenut.Prelude.{
  ℕ, zero, suc, ◌≡◌, refl, sym, ap, ◌∙◌, List, [], ◌∷◌, bytes_eq, bytes_eq→eq, Bool-cases,
  if◌then◌else◌, All, Option, none, some, inl, inr, Result, ok, err,
}
use pinenut.Errors.{CipherError}

-- `HashMap<PublicKey, EncryptionKey>`
abbrev pub Keys : Type 0
Keys = List (List ℕ × List ℕ)

unfoldable pub get : List ℕ → Keys → Option (List ℕ)
get pub_key [] = none
get pub_key ((k, v) ∷ keys) = if bytes_eq pub_key k then some v else get pub_key keys

abbrev zeros : ℕ → List ℕ
zeros zero = []
zeros (suc n) = 0 ∷ zeros n

-- `EMPTY_PUBLIC_KEY`
abbrev pub empty_public_key : List ℕ
empty_public_key = zeros 33

-- `ecdh_encryption_key` on a secret and a public key.
module _ (ecdh_encryption_key : List ℕ → List ℕ → Result CipherError (List ℕ)) where
  abbrev pub insert_key :
      List ℕ → Keys → Result CipherError (List ℕ) → Result CipherError (Option (List ℕ)) × Keys
  insert_key pub_key keys (ok key) = (ok (some key), (pub_key, key) ∷ keys)
  insert_key pub_key keys (err e) = (err e, keys)

  abbrev pub negotiate_if :
      Option (List ℕ) → List ℕ → Keys → Result CipherError (Option (List ℕ)) × Keys
  negotiate_if none pub_key keys = (ok none, keys)
  negotiate_if (some secret_key) pub_key keys =
      insert_key pub_key keys (ecdh_encryption_key secret_key pub_key)

  abbrev pub hit_or_negotiate :
      Option (List ℕ)
      → List ℕ
      → Keys
      → Option (List ℕ)
      → Result CipherError (Option (List ℕ)) × Keys
  hit_or_negotiate secret_key pub_key keys (some key) = (ok (some key), keys)
  hit_or_negotiate secret_key pub_key keys none = negotiate_if secret_key pub_key keys

  -- The key of the decryptor, if there is one, and the keys kept.
  unfoldable pub obtain_decryptor :
      Option (List ℕ) → List ℕ → Keys → Result CipherError (Option (List ℕ)) × Keys
  obtain_decryptor secret_key pub_key keys =
      if bytes_eq pub_key empty_public_key
      then (ok none, keys)
      else hit_or_negotiate secret_key pub_key keys (get pub_key keys)

  -- The specification, which keeps no keys.
  abbrev pub decryptor_key : Option (List ℕ) → List ℕ → Result CipherError (Option (List ℕ))
  decryptor_key secret_key pub_key =
      if bytes_eq pub_key empty_public_key then ok none else (negotiate_if secret_key pub_key []).0

  -- Every key that is kept was negotiated with the secret key.
  abbrev pub IsCoherent : Option (List ℕ) → Keys → Type 0
  IsCoherent none keys = keys ≡ []
  IsCoherent (some secret_key) keys = All (λ e. ecdh_encryption_key secret_key e.0 ≡ ok e.1) keys

  get-IsCoherent :
      (secret_key pub_key : List ℕ) (keys : Keys) (key : List ℕ)
      → IsCoherent (some secret_key) keys
      → get pub_key keys ≡ some key
      → ecdh_encryption_key secret_key pub_key ≡ ok key
  unfolding get
  get-IsCoherent secret_key pub_key [] key h g = absurd (cc (g))
  get-IsCoherent secret_key pub_key ((k, v) ∷ keys) key h g =
      elim (Bool-cases (bytes_eq pub_key k)) [
        | inl same ↦
            let e : v ≡ key = cc (rw same at g) in
            ap (ecdh_encryption_key secret_key) (bytes_eq→eq pub_key k same) ∙ h.0 ∙ ap ok e
        | inr other ↦ get-IsCoherent secret_key pub_key keys key h.1 (rw other at g)
      ]

  insert-IsCoherent :
      (secret_key pub_key : List ℕ) (keys : Keys) (r : Result CipherError (List ℕ))
      → ecdh_encryption_key secret_key pub_key ≡ r
      → IsCoherent (some secret_key) keys
      → ((insert_key pub_key keys r).0 ≡ (insert_key pub_key [] r).0)
        × IsCoherent (some secret_key) (insert_key pub_key keys r).1
  insert-IsCoherent secret_key pub_key keys (ok key) e h = (refl, (e, h))
  insert-IsCoherent secret_key pub_key keys (err x) e h = (refl, h)

  miss-IsCoherent :
      (secret_key : Option (List ℕ)) (pub_key : List ℕ) (keys : Keys)
      → IsCoherent secret_key keys
      → ((negotiate_if secret_key pub_key keys).0 ≡ (negotiate_if secret_key pub_key []).0)
        × IsCoherent secret_key (negotiate_if secret_key pub_key keys).1
  miss-IsCoherent none pub_key keys h = (refl, h)
  miss-IsCoherent (some secret_key) pub_key keys h =
      insert-IsCoherent secret_key pub_key keys (ecdh_encryption_key secret_key pub_key) refl h

  hit-IsCoherent :
      (secret_key : Option (List ℕ)) (pub_key : List ℕ) (keys : Keys) (o : Option (List ℕ))
      → get pub_key keys ≡ o
      → IsCoherent secret_key keys
      → ((hit_or_negotiate secret_key pub_key keys o).0 ≡ (negotiate_if secret_key pub_key []).0)
        × IsCoherent secret_key (hit_or_negotiate secret_key pub_key keys o).1
  unfolding get
  hit-IsCoherent secret_key pub_key keys none g h = miss-IsCoherent secret_key pub_key keys h
  hit-IsCoherent none pub_key keys (some key) g h = absurd (cc (rw h at g))
  hit-IsCoherent (some secret_key) pub_key keys (some key) g h = (
    sym (ap (λ r. (insert_key pub_key [] r).0) (get-IsCoherent secret_key pub_key keys key h g)),
    h,
  )

  -- Keeping keys changes no result: if every key kept was negotiated with the secret key, a chunk gets
  -- the key, no key or the error that it would get without any kept, and the keys stay so.
  pub obtain_decryptor-IsCoherent :
      (secret_key : Option (List ℕ)) (pub_key : List ℕ) (keys : Keys)
      → IsCoherent secret_key keys
      → ((obtain_decryptor secret_key pub_key keys).0 ≡ decryptor_key secret_key pub_key)
        × IsCoherent secret_key (obtain_decryptor secret_key pub_key keys).1
  unfolding obtain_decryptor
  obtain_decryptor-IsCoherent secret_key pub_key keys h =
      elim (Bool-cases (bytes_eq pub_key empty_public_key)) [
        | inl plain ↦ rw plain (refl, h)
        | inr keyed ↦ rw keyed (hit-IsCoherent secret_key pub_key keys (get pub_key keys) refl h)
      ]
