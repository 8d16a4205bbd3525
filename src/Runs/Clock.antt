-- ===== src/Runs/Clock.antt =====
-- A clock of three moments, and two records logged by it.
use pinenut.Prelude.{
  ℕ, ◌≡◌, refl, arith, [], ◌∷◌, Option, none, some, ℤ, pos, negsuc, leb_ℤ, IsI64, ◌<◌, ◌^◌,
  if◌then◌else◌, ◌==◌,
}
use pinenut.Chrono.{Chrono, IsChrono}
use pinenut.Utf8.{is_utf8}
use pinenut.Record.{info, warn, Record}
use pinenut.Codec.Values.{IsRecord}

pub data Moment : Type 0 where
  dusk morning noon : Moment

abbrev pub seconds : Moment → ℤ
seconds dusk = negsuc 3599
seconds morning = pos 28800
seconds noon = pos 43200

abbrev nanos : Moment → ℕ
nanos dusk = 0
nanos morning = 250
nanos noon = 0

abbrev of_seconds : ℤ → Option Moment
of_seconds (pos n) = if n == 28800 then some morning else if n == 43200 then some noon else none
of_seconds (negsuc n) = if n == 3599 then some dusk else none

abbrev hours : Moment → ℕ
hours dusk = 23
hours morning = 8
hours noon = 12

abbrev days : Moment → ℤ
days dusk = negsuc 0
days morning = pos 0
days noon = pos 0

abbrev pub clock : Chrono
clock = record {
  DateTime = Moment;
  timestamp = seconds;
  timestamp_subsec_nanos = nanos;
  from_timestamp = λ s n. of_seconds s;
  default = morning;
  date = days;
  hour = hours;
  minute = λ m. 0;
  leb = λ a b. leb_ℤ (seconds a) (seconds b);
}

of_seconds-seconds : (d : Moment) → of_seconds (seconds d) ≡ some d
of_seconds-seconds dusk = refl
of_seconds-seconds morning = refl
of_seconds-seconds noon = refl

nanos_short : (d : Moment) → nanos d < 2 ^ 32
nanos_short dusk = omega arith
nanos_short morning = omega arith
nanos_short noon = omega arith

seconds_short : (d : Moment) → IsI64 (seconds d)
seconds_short dusk = omega arith
seconds_short morning = omega arith
seconds_short noon = omega arith

pub clock-IsChrono : IsChrono clock
clock-IsChrono = record {
  from_timestamp-parts = of_seconds-seconds;
  nanos_u32 = nanos_short;
  timestamp_i64 = seconds_short;
}

-- "main.rs" and "net", of which the bytes are ASCII.
abbrev pub up : Record clock
up = record {
  meta = record {
    level = info;
    datetime = morning;
    location = record { file = some (109 ∷ 97 ∷ 105 ∷ 110 ∷ []); func = none; line = some 300 };
    tag = some (110 ∷ 101 ∷ 116 ∷ []);
    thread_id = none;
  };
  content = 117 ∷ 112 ∷ [];
}

-- Its content is an "é" of two bytes.
abbrev pub late : Record clock
late = record {
  meta = record {
    level = warn;
    datetime = noon;
    location = record { file = none; func = none; line = none };
    tag = none;
    thread_id = some 7;
  };
  content = 195 ∷ 169 ∷ [];
}

pub up-IsRecord : IsRecord clock up
unfolding is_utf8
up-IsRecord = record {
  meta = record {
    location = record {
      file = record { utf8 = refl; short = omega arith };
      func = tt;
      line = omega arith;
    };
    tag = record { utf8 = refl; short = omega arith };
    thread_id = tt;
  };
  content = record { utf8 = refl; short = omega arith };
}

pub late-IsRecord : IsRecord clock late
unfolding is_utf8
late-IsRecord = record {
  meta = record {
    location = record { file = tt; func = tt; line = tt };
    tag = tt;
    thread_id = omega arith;
  };
  content = record { utf8 = refl; short = omega arith };
}
