-- ===== src/Logfile.antt =====
-- pinenut/src/logfile.rs: the names of log files, and the files themselves. A file name is the list of
-- its characters, without separators of a path; what the file system does is a parameter.
pub mod Names
pub mod Files
use pinenut.Prelude.{
  ℕ, zero, suc, ◌+◌, ◌-◌, ◌*◌, ◌/◌, ◌%◌, ◌^◌, List, [], ◌∷◌, ◌++◌, Bool, true, false, not, ◌&&◌,
  leb, ltb, ◌==◌, bytes_eq, if◌then◌else◌, Option, none, some, ℤ, pos, negsuc,
}
use pinenut.Chrono.{Chrono}

-- `to_string` of a number, on fuel: as many rounds as the number and one more are enough.
abbrev pub digits_loop : ℕ → ℕ → List ℕ → List ℕ
digits_loop zero n rest = rest
digits_loop (suc fuel) n rest =
    let more = digits_loop fuel (n / 10) ((48 + n % 10) ∷ rest) in
    if ltb n 10 then (48 + n) ∷ rest else more

abbrev pub digits : ℕ → List ℕ
digits n = digits_loop (suc n) n []

abbrev pub to_string : ℤ → List ℕ
to_string (pos n) = digits n
to_string (negsuc n) = 45 ∷ digits (suc n)

-- `str::parse` of an `i64`: digits, of which the value is at most `limit`, behind a sign or none.
unfoldable pub parse_digits : ℕ → ℕ → List ℕ → Option ℕ
parse_digits limit val [] = some val
parse_digits limit val (d ∷ ds) =
    let next = val * 10 + (d - 48) in
    let rest = parse_digits limit next ds in
    if leb 48 d && leb d 57 && leb next limit then rest else none

abbrev pub positive : Option ℕ → Option ℤ
positive none = none
positive (some n) = some (pos n)

abbrev pub negative : Option ℕ → Option ℤ
negative none = none
negative (some zero) = some (pos zero)
negative (some (suc n)) = some (negsuc n)

abbrev pub unsigned : ℕ → List ℕ → Option ℕ
unsigned limit [] = none
unsigned limit (d ∷ ds) = parse_digits limit 0 (d ∷ ds)

abbrev pub parse_i64 : List ℕ → Option ℤ
parse_i64 [] = none
parse_i64 (d ∷ ds) =
    if d == 45
    then negative (unsigned (2 ^ 63) ds)
    else if d == 43
    then positive (unsigned (2 ^ 63 - 1) ds)
    else positive (unsigned (2 ^ 63 - 1) (d ∷ ds))

-- `rsplit_once` at a character.
abbrev pub split_behind : ℕ → ℕ → List ℕ → Option (List ℕ × List ℕ) → Option (List ℕ × List ℕ)
split_behind sep x xs none = if x == sep then some ([], xs) else none
split_behind sep x xs (some (front, back)) = some (x ∷ front, back)

unfoldable pub rsplit_once : ℕ → List ℕ → Option (List ℕ × List ℕ)
rsplit_once sep [] = none
rsplit_once sep (x ∷ xs) = split_behind sep x xs (rsplit_once sep xs)

-- `Path::extension` and `Path::file_stem`: a name that only begins with a dot has no extension.
abbrev pub stem_of : List ℕ → Option (List ℕ × List ℕ) → List ℕ × Option (List ℕ)
stem_of name none = (name, none)
stem_of name (some ([], back)) = (name, none)
stem_of name (some (x ∷ front, back)) = (x ∷ front, some back)

unfoldable pub stem_and_extension : List ℕ → List ℕ × Option (List ℕ)
stem_and_extension name = stem_of name (rsplit_once 46 name)

-- `FILE_EXTENSION` and `Logfile::NAME_SEPARATOR`
abbrev pub file_extension : List ℕ
file_extension = 112 ∷ 105 ∷ 110 ∷ 101 ∷ []

abbrev pub name_separator : ℕ
name_separator = 45

module _ (c : Chrono) where
  -- `Logfile::name`
  unfoldable pub name : List ℕ → c.DateTime → List ℕ
  name identifier datetime =
      identifier ++ (name_separator ∷ (to_string (c.timestamp datetime) ++ (46 ∷ file_extension)))

  abbrev pub datetime_of_seconds : Option ℤ → Option c.DateTime
  datetime_of_seconds none = none
  datetime_of_seconds (some seconds) = c.from_timestamp seconds 0

  abbrev pub from_parts : List ℕ → Option (List ℕ × List ℕ) → Option c.DateTime
  from_parts domain none = none
  from_parts domain (some (identifier, timestamp)) =
      if bytes_eq identifier domain then datetime_of_seconds (parse_i64 timestamp) else none

  abbrev pub from_stem : List ℕ → List ℕ × Option (List ℕ) → Option c.DateTime
  from_stem domain (stem, none) = none
  from_stem domain (stem, some extension) =
      if bytes_eq extension file_extension
      then from_parts domain (rsplit_once name_separator stem)
      else none

  -- `Logfile::from_entry`: the date of a log file of the domain.
  unfoldable pub from_entry : List ℕ → List ℕ → Option c.DateTime
  from_entry domain entry = from_stem domain (stem_and_extension entry)
