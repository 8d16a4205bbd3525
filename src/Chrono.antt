-- ===== src/Chrono.antt =====
-- The `chrono` crate, which the program calls for its dates: a parameter of the model.
use pinenut.Prelude.{ℕ, ◌<◌, ◌^◌, ◌≡◌, Option, none, some, Bool, ℤ, IsI64}

-- `DateTime<Utc>` with the functions of it that the program uses. `date` is the day of
-- `naive_local().date()`, of which the program only tests equality, `default` is `Default::default()`
-- and `leb a b` is the test `a <= b`.
pub record Chrono : Type 1 where
  pub DateTime : Type 0
  pub timestamp : DateTime → ℤ
  pub timestamp_subsec_nanos : DateTime → ℕ
  pub from_timestamp : ℤ → ℕ → Option DateTime
  pub default : DateTime
  pub date : DateTime → ℤ
  pub hour : DateTime → ℕ
  pub minute : DateTime → ℕ
  pub leb : DateTime → DateTime → Bool

-- What the crate documents of the seconds and the nanoseconds of a date.
pub record IsChrono (c : Chrono) : Type 0 where
  pub from_timestamp-parts :
      (d : c.DateTime) → c.from_timestamp (c.timestamp d) (c.timestamp_subsec_nanos d) ≡ some d
  pub nanos_u32 : (d : c.DateTime) → c.timestamp_subsec_nanos d < 2 ^ 32
  pub timestamp_i64 : (d : c.DateTime) → IsI64 (c.timestamp d)

-- `unwrap_or_default`
abbrev pub unwrap_or_default {ℓ} : {A : Type ℓ} → A → Option A → A
unwrap_or_default d none = d
unwrap_or_default d (some a) = a
