-- ===== src/Encrypt/Sinks.antt =====
-- One call of `BytesBuf::sink`: what a handler gives goes to the sink, and the buffer is drained.
use pinenut.Prelude.{
  ℕ, zero, suc, ◌≤◌, ◌≡◌, refl, sym, ap, ◌∙◌, arith, List, [], ◌∷◌, length, drop, drop_all, min,
  ◌⊎◌, inl, inr, Result, ok, err, Sink, continue,
}
use pinenut.Errors.{CipherError}
use pinenut.Common.Memory.{put, length-put}
use pinenut.Common.BytesBuf
use pinenut.Common.BytesBuf.{BytesBuf}
use pinenut.Common.Ends.{calls}
use pinenut.Codec.Writes.{sink_all}
use pinenut.Codec.Accumulate.{Gives}
use pinenut.Encrypt.{Aes, drained, handled, overwrite}

-- What is behind the bytes that are overwritten stays.
drop-put_before : (n : ℕ) (xs bs : List ℕ) → length xs ≤ n → drop n (put 0 xs bs) ≡ drop n bs
drop-put_before n [] bs h = refl
drop-put_before n (x ∷ xs) [] h = refl
drop-put_before zero (x ∷ xs) (b ∷ bs) h = absurd (omega arith)
drop-put_before (suc n) (x ∷ xs) (b ∷ bs) h = drop-put_before n xs bs (omega arith)

pub drop-put_over :
    (n : ℕ) (xs bs : List ℕ) → (length xs ≤ n) ⊎ (length bs ≤ n) → drop n (put 0 xs bs) ≡ drop n bs
drop-put_over n xs bs (inl h) = drop-put_before n xs bs h
drop-put_over n xs bs (inr h) =
    drop_all n (put 0 xs bs) (omega (arith, length-put 0 xs bs)) ∙ sym (drop_all n bs h)

module _ (aes : Aes) {S E : Type 0} (sink : Sink S E) (of_error : CipherError → E) (cap : ℕ) where
  abbrev pub holding : List ℕ → BytesBuf
  holding bytes = record { capacity = cap; bytes = bytes }

  drain-holding :
      (len : ℕ) (xs bs : List ℕ)
      → len ≤ length bs
      → (length xs ≤ len) ⊎ (length bs ≤ len)
      → BytesBuf.drain len (overwrite aes sink of_error xs (holding bs)) ≡ holding (drop len bs)
  unfolding BytesBuf.drain
  drain-holding len xs bs h over =
      let e : min len (length (put 0 xs bs)) ≡ len = omega (arith, length-put 0 xs bs) in
      ap (λ n. holding (drop n (put 0 xs bs))) e ∙ ap holding (drop-put_over len xs bs over)

  -- `in_place` is what the handler wrote over the first bytes, or over all of them and more.
  pub handled-Gives :
      (len : ℕ) (bs in_place out : List ℕ) (s : S)
      → len ≤ length bs
      → (length in_place ≤ len) ⊎ (length bs ≤ len)
      → Gives sink cap (drop len bs) (sink_all sink (calls out) s) (
          handled aes sink of_error len
            (ok out)
            (overwrite aes sink of_error in_place (holding bs), s))
  unfolding handled drained
  handled-Gives len bs in_place [] s h over =
      ap (λ b. (ok tt, (b, s))) (drain-holding len in_place bs h over)
  handled-Gives len bs in_place (x ∷ out) s h over = go (sink (x ∷ out) s)
    where
      go :
          (r : Result E (Unit {0}) × S)
          → Gives sink cap
              (drop len bs)
              (let (a, s') = r in continue a (λ _. sink_all sink []) s')
              (drained aes sink of_error len (overwrite aes sink of_error in_place (holding bs)) r)
      go (ok u, s') = ap (λ b. (ok tt, (b, s'))) (drain-holding len in_place bs h over)
      go (err e, s') = (refl, refl)
