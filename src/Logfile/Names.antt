-- ===== src/Logfile/Names.antt =====
-- The date in a log file's name is read back, if it is not before 1970.
use pinenut.Prelude.{
  ℕ, zero, suc, ◌+◌, ◌-◌, ◌*◌, ◌/◌, ◌%◌, ◌≤◌, ◌<◌, ◌≡◌, ◌≢◌, ◌^◌, refl, sym, ap, ◌∙◌, arith, List,
  [], ◌∷◌, ◌++◌, append_assoc, length, length-append, All, true, false, Bool-cases, inl, inr, leb,
  ltb, ◌&&◌, ◌==◌, bytes_eq, bytes_eq→eq, bytes_eq_refl, none, some, pos, negsuc,
}
use pinenut.Chrono.{Chrono}
use pinenut.Logfile.{
  digits_loop, digits, to_string, parse_digits, parse_i64, positive, rsplit_once,
  stem_and_extension, file_extension, name, from_entry, from_stem, from_parts, datetime_of_seconds,
}

abbrev IsDigit : ℕ → Type 0
IsDigit d = (48 ≤ d) × (d ≤ 57)

digits_loop-IsDigit :
    (fuel n : ℕ) (rest : List ℕ) → All IsDigit rest → All IsDigit (digits_loop fuel n rest)
digits_loop-IsDigit zero n rest h = h
digits_loop-IsDigit (suc fuel) n rest h = elim (Bool-cases (ltb n 10)) [
  | inl small ↦ rw small ((omega arith, ground arith), h)
  | inr big ↦
      rw big
        (digits_loop-IsDigit fuel (n / 10) ((48 + n % 10) ∷ rest) ((omega arith, omega arith), h))
]

parse_step :
    (limit val k : ℕ) (rest : List ℕ)
    → k ≤ 9
    → val * 10 + k ≤ limit
    → parse_digits limit val ((48 + k) ∷ rest) ≡ parse_digits limit (val * 10 + k) rest
unfolding parse_digits
parse_step limit val k rest h fits =
    let e : val * 10 + (48 + k - 48) ≡ val * 10 + k = omega arith in
    let digit : (leb 48 (48 + k) && leb (48 + k) 57 && leb (val * 10 + k) limit) ≡ true =
      ground arith in
    rw (e, digit) refl

-- What the digits of a number begin with is read as that number.
parse_digits-digits_loop :
    (limit fuel n : ℕ) (rest : List ℕ)
    → n < fuel
    → n ≤ limit
    → parse_digits limit 0 (digits_loop fuel n rest) ≡ parse_digits limit n rest
unfolding parse_digits
parse_digits-digits_loop limit zero n rest h fits = absurd (omega arith)
parse_digits-digits_loop limit (suc fuel) n rest h fits = elim (Bool-cases (ltb n 10)) [
  | inl small ↦ rw small (
      parse_step limit 0 n rest (ground arith) (omega arith)
      ∙ ap (λ m. parse_digits limit m rest) (omega arith))
  | inr big ↦
      let more = (48 + n % 10) ∷ rest in
      let whole : n / 10 * 10 + n % 10 ≡ n = omega arith in
      rw big (
        parse_digits-digits_loop limit fuel (n / 10) more (ground arith) (omega arith)
        ∙ parse_step limit (n / 10) (n % 10) rest (omega arith) (omega arith)
        ∙ ap (λ m. parse_digits limit m rest) whole)
]

record StartsWithDigit (n : ℕ) : Type 0 where
  first : ℕ
  others : List ℕ
  same : digits n ≡ first ∷ others
  digit : IsDigit first

digits_loop-cons :
    (fuel n d : ℕ) (rest : List ℕ)
    → (f : ℕ) × (others : List ℕ) × (digits_loop fuel n (d ∷ rest) ≡ f ∷ others)
digits_loop-cons zero n d rest = (d, rest, refl)
digits_loop-cons (suc fuel) n d rest = elim (Bool-cases (ltb n 10)) [
  | inl small ↦ rw small (48 + n, d ∷ rest, refl)
  | inr big ↦ rw big (digits_loop-cons fuel (n / 10) (48 + n % 10) (d ∷ rest))
]

digits-StartsWithDigit : (n : ℕ) → StartsWithDigit n
digits-StartsWithDigit n = go (digits n) refl (first n)
  where
    first : (n : ℕ) → (f : ℕ) × (others : List ℕ) × (digits n ≡ f ∷ others)
    first n = elim (Bool-cases (ltb n 10)) [
      | inl small ↦ rw small (48 + n, [], refl)
      | inr big ↦ rw big (digits_loop-cons n (n / 10) (48 + n % 10) [])
    ]

    go :
        (ds : List ℕ)
        → digits n ≡ ds
        → (f : ℕ) × (others : List ℕ) × (digits n ≡ f ∷ others)
        → StartsWithDigit n
    go ds e (f, others, same) = record {
      first = f;
      others = others;
      same = same;
      digit = (rw same at (digits_loop-IsDigit (suc n) n [] tt)).0;
    }

parse_i64-digits : (n : ℕ) → n < 2 ^ 63 → parse_i64 (digits n) ≡ some (pos n)
unfolding parse_digits
parse_i64-digits n h =
    let d = digits-StartsWithDigit n in
    let not_minus : (d.first == 45) ≡ false = ground (arith, d.digit.0) in
    let not_plus : (d.first == 43) ≡ false = ground (arith, d.digit.0) in
    let read : parse_digits (2 ^ 63 - 1) 0 (digits n) ≡ some n =
      parse_digits-digits_loop (2 ^ 63 - 1) (suc n) n [] (omega arith) (omega arith) in
    rw (d.same, not_minus, not_plus)
      (ap positive (ap (parse_digits (2 ^ 63 - 1) 0) (sym d.same) ∙ read))

rsplit_once-absent : (sep : ℕ) (xs : List ℕ) → All (λ x. x ≢ sep) xs → rsplit_once sep xs ≡ none
unfolding rsplit_once
rsplit_once-absent sep [] h = refl
rsplit_once-absent sep (x ∷ xs) h =
    let other : (x == sep) ≡ false = ground (arith, h.0) in
    rw (rsplit_once-absent sep xs h.1, other) refl

-- A text is split at the last of its separators.
rsplit_once-last :
    (sep : ℕ) (front back : List ℕ)
    → All (λ x. x ≢ sep) back
    → rsplit_once sep (front ++ (sep ∷ back)) ≡ some (front, back)
unfolding rsplit_once
rsplit_once-last sep [] back h =
    let same : (sep == sep) ≡ true = ground arith in rw (rsplit_once-absent sep back h, same) refl
rsplit_once-last sep (x ∷ front) back h = rw (rsplit_once-last sep front back h) refl

stem_of-joined :
    (front back : List ℕ)
    → 1 ≤ length front
    → All (λ x. x ≢ 46) back
    → stem_and_extension (front ++ (46 ∷ back)) ≡ (front, some back)
unfolding stem_and_extension
stem_of-joined [] back h a = absurd (omega (arith, h))
stem_of-joined (x ∷ front) back h a = rw (rsplit_once-last 46 (x ∷ front) back a) refl

IsDigit-other : (sep : ℕ) (xs : List ℕ) → sep < 48 → All IsDigit xs → All (λ x. x ≢ sep) xs
IsDigit-other sep [] h d = tt
IsDigit-other sep (x ∷ xs) h d =
    (λ e. absurd (omega (arith, e, d.0.0, h)), IsDigit-other sep xs h d.1)

longer_name : (identifier : List ℕ) → bytes_eq (identifier ++ (45 ∷ [])) identifier ≡ false
longer_name identifier = elim (Bool-cases (bytes_eq (identifier ++ (45 ∷ [])) identifier)) [
  | inl same ↦ absurd (
      omega (
        arith,
        ap length (bytes_eq→eq (identifier ++ (45 ∷ [])) identifier same),
        length-append identifier (45 ∷ []),
      ))
  | inr other ↦ other
]

module _ (c : Chrono) where
  -- A name is read at its last separator.
  from_entry-joined :
      (identifier text : List ℕ)
      → from_entry c identifier (identifier ++ (45 ∷ (text ++ (46 ∷ file_extension))))
        ≡ from_parts c identifier (rsplit_once 45 (identifier ++ (45 ∷ text)))
  unfolding from_entry
  from_entry-joined identifier text =
      let stem = identifier ++ (45 ∷ text) in
      let same : stem ++ (46 ∷ file_extension)
          ≡ identifier ++ (45 ∷ (text ++ (46 ∷ file_extension))) =
        append_assoc identifier (45 ∷ text) (46 ∷ file_extension) in
      let no_dots : All (λ x. x ≢ 46) file_extension =
        (λ e. cc, (λ e. cc, (λ e. cc, (λ e. cc, tt)))) in
      ap (from_entry c identifier) (sym same)
      ∙ ap (from_stem c identifier) (
          stem_of-joined stem file_extension (omega (arith, length-append identifier (45 ∷ text)))
            no_dots)

  -- The name of a log file that is not dated before 1970 is read, in a directory of its domain, as the
  -- second of its date, whatever the identifier of the domain.
  pub from_entry-name :
      (identifier : List ℕ) (datetime : c.DateTime) (n : ℕ)
      → c.timestamp datetime ≡ pos n
      → n < 2 ^ 63
      → from_entry c identifier (name c identifier datetime) ≡ c.from_timestamp (pos n) 0
  unfolding from_entry name
  from_entry-name identifier datetime n second short =
      let split =
        rsplit_once-last 45 identifier (digits n)
          (IsDigit-other 45 (digits n) (omega arith) (digits_loop-IsDigit (suc n) n [] tt)) in
      ap
        (λ t. from_entry c identifier (identifier ++ (45 ∷ (to_string t ++ (46 ∷ file_extension)))))
        second
      ∙ from_entry-joined identifier (digits n)
      ∙ ap (from_parts c identifier) split
      ∙ rw (bytes_eq_refl identifier) (ap (datetime_of_seconds c) (parse_i64-digits n short))

  -- The name of one that is dated before 1970 is not read back as a log file of its domain: its minus
  -- sign is taken for the separator.
  pub from_entry-before_1970 :
      (identifier : List ℕ) (datetime : c.DateTime) (n : ℕ)
      → c.timestamp datetime ≡ negsuc n
      → from_entry c identifier (name c identifier datetime) ≡ none
  unfolding from_entry name
  from_entry-before_1970 identifier datetime n second =
      let ds = digits (suc n) in
      let split =
        rsplit_once-last 45 (identifier ++ (45 ∷ [])) ds
          (IsDigit-other 45 ds (omega arith) (digits_loop-IsDigit (suc (suc n)) (suc n) [] tt)) in
      let longer : bytes_eq (identifier ++ (45 ∷ [])) identifier ≡ false = longer_name identifier in
      ap
        (λ t. from_entry c identifier (identifier ++ (45 ∷ (to_string t ++ (46 ∷ file_extension)))))
        second
      ∙ from_entry-joined identifier (45 ∷ ds)
      ∙ ap (λ l. from_parts c identifier (rsplit_once 45 l))
          (sym (append_assoc identifier (45 ∷ []) (45 ∷ ds)))
      ∙ ap (from_parts c identifier) split
      ∙ rw longer refl
