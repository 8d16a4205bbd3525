-- ===== src/Record.antt =====
-- pinenut/src/record.rs: what one log entry holds. A `&str` is the list of its UTF-8 bytes.
use pinenut.Prelude.{ℕ, ◌≡◌, refl, List, Option, none, some, ◌==◌, if◌then◌else◌}
use pinenut.Chrono.{Chrono}

pub data Level : Type 0 where
  error warn info debug verbose : Level

unfoldable pub primitive : Level → ℕ
primitive error = 1
primitive warn = 2
primitive info = 3
primitive debug = 4
primitive verbose = 5

unfoldable pub from_primitive : ℕ → Option Level
from_primitive value =
    if value == 1
    then some error
    else if value == 2
    then some warn
    else if value == 3
    then some info
    else if value == 4
    then some debug
    else if value == 5
    then some verbose
    else none

pub from_primitive-primitive : (l : Level) → from_primitive (primitive l) ≡ some l
unfolding primitive from_primitive
from_primitive-primitive error = refl
from_primitive-primitive warn = refl
from_primitive-primitive info = refl
from_primitive-primitive debug = refl
from_primitive-primitive verbose = refl

abbrev pub Str : Type 0
Str = List ℕ

pub record Location : Type 0 where
  pub file : Option Str
  pub func : Option Str
  pub line : Option ℕ

pub record Meta (c : Chrono) : Type 0 where
  pub level : Level
  pub datetime : c.DateTime
  pub location : Location
  pub tag : Option Str
  pub thread_id : Option ℕ

pub record Record (c : Chrono) : Type 0 where
  pub meta : Meta c
  pub content : Str
