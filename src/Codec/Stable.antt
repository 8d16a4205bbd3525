-- ===== src/Codec/Stable.antt =====
-- More input does not change what a decoder made of a complete value, nor an error other than
-- running out of input.
use pinenut.Prelude.{
  ℕ, ◌+◌, ◌*◌, ◌%◌, ◌^◌, ◌≡◌, sym, ap, ◌∙◌, arith, Bool, true, false, List, [], ◌∷◌, ◌++◌,
  append_assoc, Option, none, some, length, take, drop, take-append-drop, take-append_le,
  drop-append_le, length-append, leb, ltb, if◌then◌else◌, inl, inr, Bool-cases, bit_and, bit_or,
  ◌==◌,
}
use pinenut.Prelude.{Result, ok, err, pure, raise, ◌>>=◌, >>=-eq-ok, >>=-eq-err}
use pinenut.Chrono.{Chrono}
use pinenut.Utf8.{is_utf8}
use pinenut.Record.{Level, from_primitive}
use pinenut.Codec.{
  DecodingError, unexpected_end, str, Decoder, read_bytes, first, decode_u8, decode_varint_loop,
  leading_zeros, decode_varint, decode_bytes, check_utf8, decode_str, decode_tagged, decode_option,
  level_or_error, decode_level, decode_location, i64_of_u64, ok_or_date_time, decode_datetime,
  decode_meta, decode_record,
}

abbrev pub IsEnd : DecodingError → Type 0
IsEnd (unexpected_end n) = Unit
IsEnd _ = ⊥

pub record Stable {A : Type 0} (m : Decoder A) : Type 0 where
  pub ok_more :
      (src more : List ℕ) {a : A} {rest : List ℕ}
      → m src ≡ (ok a, rest)
      → m (src ++ more) ≡ (ok a, rest ++ more)
  pub err_more :
      (src more : List ℕ) {e : DecodingError} {rest : List ℕ}
      → ¬ IsEnd e
      → m src ≡ (err e, rest)
      → m (src ++ more) ≡ (err e, rest ++ more)
  pub suffix :
      (src : List ℕ) {a : A} {rest : List ℕ}
      → m src ≡ (ok a, rest)
      → (used : List ℕ) × (src ≡ used ++ rest)

Stable-pure : {A : Type 0} (a : A) → Stable (pure a)
Stable-pure a = record {
  ok_more = λ src more h. cc;
  err_more = λ src more n h. absurd (cc);
  suffix = λ src h. ([], cc);
}

Stable-raise : {A : Type 0} (e : DecodingError) → Stable {A = A} (raise e)
Stable-raise e = record {
  ok_more = λ src more h. absurd (cc);
  err_more = λ src more n h. cc;
  suffix = λ src h. absurd (cc);
}

Stable-bind :
    {A B : Type 0} {m : Decoder A} (f : A → Decoder B)
    → Stable m
    → ((a : A) → Stable (f a))
    → Stable (m >>= f)
Stable-bind {m = m} f p q = record {
  ok_more = λ src more h.
      let (a, s, e, g) = >>=-eq-ok m f src h in rw (p.ok_more src more e) ((q a).ok_more s more g);
  err_more = λ src more n h. elim (>>=-eq-err m f src h) [
    | inl e ↦ rw (p.err_more src more n e)
    | inr (a, s, e, g) ↦ rw (p.ok_more src more e) ((q a).err_more s more n g)
  ];
  suffix = λ src h.
      let (a, s, e, g) = >>=-eq-ok m f src h in
      let (u, eu) = p.suffix src e in
      let (v, ev) = (q a).suffix s g in
      (u ++ v, eu ∙ ap (λ t. u ++ t) ev ∙ sym (append_assoc u v _));
}

Stable-if :
    {A : Type 0} (b : Bool) {m n : Decoder A} → Stable m → Stable n → Stable (if b then m else n)
Stable-if true p q = p
Stable-if false p q = q

IsEnd-of_eq :
    {A : Type 0} {s t : List ℕ} (n : ℕ) (e : DecodingError)
    → ◌≡◌ {A = Result DecodingError A × List ℕ} (err (unexpected_end n), s) (err e, t)
    → IsEnd e
IsEnd-of_eq n (unexpected_end k) h = tt
IsEnd-of_eq n _ h = cc

read_bytes-Stable : (n : ℕ) → Stable (read_bytes n)
unfolding read_bytes
read_bytes-Stable n = record {
  ok_more = λ src more h. elim (Bool-cases (leb n (length src))) [
    | inl fits ↦
        ground (arith, length-append src more, take-append_le n src more, drop-append_le n src more)
    | inr short ↦ absurd (cc (rw short at h))
  ];
  err_more = λ src more e h. elim (Bool-cases (leb n (length src))) [
    | inl fits ↦ absurd (cc (rw fits at h))
    | inr short ↦ absurd (e (IsEnd-of_eq _ _ (rw short at h)))
  ];
  suffix = λ src {a} {rest} h. elim (Bool-cases (leb n (length src))) [
    | inl fits ↦
        let e : drop n src ≡ rest = cc (rw fits at h) in
        (take n src, rw (← e) (sym (take-append-drop n src)))
    | inr short ↦ absurd (cc (rw short at h))
  ];
}

decode_u8-Stable : Stable decode_u8
unfolding decode_u8
decode_u8-Stable = Stable-bind _ (read_bytes-Stable 1) (λ bytes. Stable-pure (first bytes))

-- The value after a byte.
abbrev add_group : ℕ → ℕ → ℕ → ℕ → ℕ
add_group w val shift byte = bit_or val (bit_and byte 0x7f * 2 ^ shift % 2 ^ w)

loop-ok_more :
    (w val shift : ℕ) (src more : List ℕ) (v : ℕ) (rest : List ℕ)
    → decode_varint_loop w val shift src ≡ (ok v, rest)
    → decode_varint_loop w val shift (src ++ more) ≡ (ok v, rest ++ more)
unfolding decode_varint_loop
loop-ok_more w val shift [] more v rest h = cc
loop-ok_more w val shift (b ∷ src) more v rest h =
    ground (arith, loop-ok_more w (add_group w val shift b) (shift + 7) src more v rest)

loop-err_more :
    (w val shift : ℕ) (src more : List ℕ) (e : DecodingError) (rest : List ℕ)
    → ¬ IsEnd e
    → decode_varint_loop w val shift src ≡ (err e, rest)
    → decode_varint_loop w val shift (src ++ more) ≡ (err e, rest ++ more)
unfolding decode_varint_loop
loop-err_more w val shift [] more e rest n h = absurd (n (IsEnd-of_eq _ _ h))
loop-err_more w val shift (b ∷ src) more e rest n h =
    ground (arith, loop-err_more w (add_group w val shift b) (shift + 7) src more e rest n)

loop_suffix :
    (w val shift : ℕ) (src : List ℕ) (v : ℕ) (rest : List ℕ)
    → decode_varint_loop w val shift src ≡ (ok v, rest)
    → (used : List ℕ) × (src ≡ used ++ rest)
unfolding decode_varint_loop
loop_suffix w val shift [] v rest h = cc
loop_suffix w val shift (b ∷ src) v rest h =
    elim (Bool-cases (ltb (leading_zeros w (bit_and b 0x7f)) shift)) [
      | inl over ↦ absurd (cc (rw over at h))
      | inr fits ↦ elim (Bool-cases (bit_and b 0x80 == 0)) [
        | inl last ↦ (b ∷ [], cc (rw (fits, last) at h))
        | inr more ↦
            let (used, e) =
              loop_suffix w (add_group w val shift b) (shift + 7) src v rest
                (rw (fits, more) at h) in
            (b ∷ used, ap (λ t. b ∷ t) e)
      ]
    ]

decode_varint-Stable : (w : ℕ) → Stable (decode_varint w)
unfolding decode_varint
decode_varint-Stable w = record {
  ok_more = λ src more h. loop-ok_more w 0 0 src more _ _ h;
  err_more = λ src more n h. loop-err_more w 0 0 src more _ _ n h;
  suffix = λ src h. loop_suffix w 0 0 src _ _ h;
}

decode_str-Stable : Stable decode_str
unfolding decode_str decode_bytes check_utf8
decode_str-Stable =
    Stable-bind check_utf8 (Stable-bind read_bytes (decode_varint-Stable 64) read_bytes-Stable)
      (λ bytes. Stable-if (is_utf8 bytes) (Stable-pure bytes) (Stable-raise str))

decode_option-Stable :
    {A : Type 0} (decode : Decoder A) → Stable decode → Stable (decode_option decode)
unfolding decode_option decode_tagged
decode_option-Stable decode h = Stable-bind (decode_tagged decode) decode_u8-Stable (λ tag.
    Stable-if (tag == 0) (Stable-pure none)
      (Stable-if (tag == 1) (Stable-bind _ h (λ a. Stable-pure (some a))) (Stable-raise _)))

level_or_error-Stable : (b : ℕ) (o : Option Level) → Stable (level_or_error b o)
unfolding level_or_error
level_or_error-Stable b none = Stable-raise _
level_or_error-Stable b (some l) = Stable-pure l

decode_level-Stable : Stable decode_level
unfolding decode_level
decode_level-Stable =
    Stable-bind _ decode_u8-Stable (λ b. level_or_error-Stable b (from_primitive b))

decode_location-Stable : Stable decode_location
unfolding decode_location
decode_location-Stable = Stable-bind _ (decode_option-Stable _ decode_str-Stable) (λ file.
    Stable-bind _ (decode_option-Stable _ decode_str-Stable) (λ func.
      Stable-bind _ (decode_option-Stable _ (decode_varint-Stable 32)) (λ line. Stable-pure _)))

i64_of_u64-Stable : (n : ℕ) → Stable (i64_of_u64 n)
unfolding i64_of_u64
i64_of_u64-Stable n = Stable-if (ltb n (2 ^ 63)) (Stable-pure _) (Stable-raise _)

ok_or_date_time-Stable : {A : Type 0} (o : Option A) → Stable (ok_or_date_time o)
unfolding ok_or_date_time
ok_or_date_time-Stable none = Stable-raise _
ok_or_date_time-Stable (some d) = Stable-pure d

module _ (c : Chrono) where
  open c use {from_timestamp}

  decode_datetime-Stable : Stable (decode_datetime c)
  unfolding decode_datetime
  decode_datetime-Stable = Stable-bind _ (decode_varint-Stable 64) (λ n.
      Stable-bind _ (i64_of_u64-Stable n) (λ secs.
        Stable-bind _ (decode_varint-Stable 32)
          (λ nsecs. ok_or_date_time-Stable (from_timestamp secs nsecs))))

  decode_meta-Stable : Stable (decode_meta c)
  unfolding decode_meta
  decode_meta-Stable = Stable-bind _ decode_level-Stable (λ l.
      Stable-bind _ decode_datetime-Stable (λ d. Stable-bind _ decode_location-Stable (λ loc.
        Stable-bind _ (decode_option-Stable _ decode_str-Stable) (λ tag.
          Stable-bind _ (decode_option-Stable _ (decode_varint-Stable 64)) (λ id. Stable-pure _)))))

  -- More input behind that of `decode_record` changes neither a record that it decoded nor an error
  -- other than running out of input; what it leaves of its input is a suffix of it.
  pub decode_record-Stable : Stable (decode_record c)
  unfolding decode_record
  decode_record-Stable =
      Stable-bind _ decode_meta-Stable
        (λ m. Stable-bind _ decode_str-Stable (λ content. Stable-pure _))
