-- ===== src/Runs/Compress.antt =====
-- compress.rs at concrete inputs, with a library that passes one byte at a time.
use pinenut.Prelude.{
  ℕ, zero, suc, ◌+◌, ◌≤◌, ◌<◌, ◌≡◌, ◌≢◌, refl, sym, ap₂, arith, List, [], ◌∷◌, ◌++◌, length, take,
  drop, ok, Sink, All,
}
use pinenut.Errors.{CompressionError}
use pinenut.Compress.{
  CompressOp, bytes_in, flush_out, Call, Directive, go_on, flush_all, end_frame, Zstd, directive,
  input_of,
}
use pinenut.Compress.Frame.{Holding, IsEncoder, Added}
use pinenut.Compress.Stream.{IsDecoder, Decompressed, decompress_all, decompress_all-Decompressed}
use pinenut.Compress.RoundTrip.{
  Framed, Middle, compress_all, compress_all-Framed, decompress_all-compressed,
}

abbrev pub one_byte : List ℕ → Call (Unit {0})
one_byte [] = record { context = tt; consumed = 0; output = []; result = ok 0 }
one_byte (x ∷ xs) = record { context = tt; consumed = 1; output = x ∷ []; result = ok (length xs) }

abbrev pub copy : Zstd
copy = record {
  CCtx = Unit {0};
  DCtx = Unit {0};
  compress_stream2 = λ ctx room bytes d. one_byte bytes;
  decompress_stream = λ ctx room bytes. one_byte bytes;
}

abbrev pub copy-Holding : Holding copy
copy-Holding = record {
  IsFrame = λ f p. f ≡ p;
  Holds = λ ctx p o. o ≡ p;
  rounds = λ ctx bytes d. length bytes;
}

pub one_byte-ok : (bytes : List ℕ) → (n : ℕ) × ((one_byte bytes).result ≡ ok n)
one_byte-ok [] = (0, refl)
one_byte-ok (x ∷ xs) = (length xs, refl)

one_byte-less :
    (bytes : List ℕ)
    → 1 ≤ length (drop (one_byte bytes).consumed bytes)
    → length (drop (one_byte bytes).consumed bytes) < length bytes
one_byte-less [] h = absurd (omega arith)
one_byte-less (x ∷ xs) h = omega arith

one_byte-left :
    (bytes : List ℕ) (n : ℕ)
    → (one_byte bytes).result ≡ ok n
    → n ≢ 0
    → length (drop (one_byte bytes).consumed bytes) < length bytes
one_byte-left [] n e h = absurd (h cc)
one_byte-left (x ∷ xs) n e h = omega arith

one_byte-take : (bytes : List ℕ) → (one_byte bytes).output ≡ take (one_byte bytes).consumed bytes
one_byte-take [] = refl
one_byte-take (x ∷ xs) = refl

copy-Added : (d : Directive) (n : ℕ) (p o : List ℕ) → o ≡ p → Added copy-Holding d n tt p o
copy-Added end_frame zero p o e = (e, refl)
copy-Added end_frame (suc n) p o e = e
copy-Added go_on n p o e = e
copy-Added flush_all n p o e = e

pub copy-IsEncoder : IsEncoder copy-Holding
copy-IsEncoder = record {
  succeeds = λ ctx bytes d. one_byte-ok bytes;
  takes_more = λ ctx bytes h. one_byte-less bytes h;
  puts_out = λ ctx bytes d n e okay h. one_byte-left bytes n okay h;
  adds =
      λ ctx bytes d n p o e okay. copy-Added d n _ _ (ap₂ (λ a b. a ++ b) e (one_byte-take bytes));
}

pub one_byte-over :
    (bytes rest p : List ℕ)
    → bytes ++ rest ≡ p
    → (p' : List ℕ) × (p ≡ (one_byte bytes).output ++ p')
      × (drop (one_byte bytes).consumed bytes ++ rest ≡ p')
one_byte-over [] rest p e = (rest, sym e, refl)
one_byte-over (x ∷ xs) rest p e = (xs ++ rest, sym e, refl)

pub one_byte-most : (bytes : List ℕ) → (one_byte bytes).consumed ≤ length bytes
one_byte-most [] = omega arith
one_byte-most (x ∷ xs) = omega arith

pub one_byte-progress :
    (bytes : List ℕ)
    → 1 ≤ length bytes
    → 1 ≤ (one_byte bytes).consumed + length (one_byte bytes).output
one_byte-progress [] h = absurd (omega arith)
one_byte-progress (x ∷ xs) h = omega arith

abbrev pub copy-IsDecoder : IsDecoder copy
copy-IsDecoder = record {
  Decodes = λ ctx f p. f ≡ p;
  IsFrame = λ f p. f ≡ p;
  next_frame = λ ctx f p ready e. e;
  succeeds = λ ctx bytes rest p h e. one_byte-ok bytes;
  left_over = λ ctx bytes rest p h e. one_byte-over bytes rest p e;
  takes_at_most = λ ctx bytes. one_byte-most bytes;
  progress = λ ctx bytes rest p h e. one_byte-progress bytes h;
  flushed = λ ctx p e. sym e;
}

abbrev gather : Sink (List ℕ) CompressionError
gather bytes held = (ok tt, held ++ bytes)

abbrev same : CompressionError → CompressionError
same e = e

decompress_all-Decompressed_example :
    Decompressed gather same copy-IsDecoder tt
      (1 ∷ 2 ∷ 3 ∷ [])
      (decompress_all gather same copy-IsDecoder 6 ((1 ∷ []) ∷ (2 ∷ 3 ∷ []) ∷ []))
decompress_all-Decompressed_example =
    decompress_all-Decompressed gather same copy-IsDecoder ((1 ∷ []) ∷ (2 ∷ 3 ∷ []) ∷ []) 6 tt
      (1 ∷ 2 ∷ 3 ∷ []) (omega arith) refl refl

abbrev operations : List CompressOp
operations = bytes_in (1 ∷ 2 ∷ []) ∷ flush_out ∷ bytes_in (3 ∷ []) ∷ []

operations-Middle : All (Middle copy-IsEncoder 6) operations
operations-Middle =
    let fits : (op : CompressOp)
        → directive op ≢ end_frame
        → length (input_of op) < 6
        → Middle copy-IsEncoder 6 op =
      λ op e h. record { not_end = e; enough = λ ctx. h } in
    (
      fits _ (λ e. cc) (omega arith),
      (fits _ (λ e. cc) (omega arith), (fits _ (λ e. cc) (omega arith), tt)),
    )

compress_all-Framed_example :
    Framed copy-IsEncoder gather same tt
      (1 ∷ 2 ∷ 3 ∷ [])
      []
      (compress_all gather same copy 6 operations)
compress_all-Framed_example =
    compress_all-Framed copy-IsEncoder gather same operations 6 tt operations-Middle
      (λ c. omega arith) refl

decompress_all-compressed_example :
    Decompressed gather same copy-IsDecoder tt
      (1 ∷ 2 ∷ 3 ∷ [])
      (decompress_all gather same copy-IsDecoder 6 ((1 ∷ []) ∷ (2 ∷ 3 ∷ []) ∷ []))
decompress_all-compressed_example =
    decompress_all-compressed copy-IsEncoder gather same gather same copy-IsDecoder operations
      ((1 ∷ []) ∷ (2 ∷ 3 ∷ []) ∷ []) 6 tt tt (λ f p e. e) operations-Middle (λ c. omega arith) refl
      (sym
        (compress_all-Framed copy-IsEncoder gather same operations 6 tt operations-Middle
          (λ c. omega arith) refl).frame)
      refl (omega arith)
