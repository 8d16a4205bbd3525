-- ===== src/Runs/Logfile.antt =====
-- Names of log files.
use pinenut.Prelude.{◌≡◌, refl, arith, none, some}
use pinenut.Logfile.{name, from_entry}
use pinenut.Logfile.Names.{from_entry-name, from_entry-before_1970}
use pinenut.Runs.Clock.{dusk, noon, clock}
use pinenut.Runs.Io.{app}

from_entry-name_example : from_entry clock app (name clock app noon) ≡ some noon
from_entry-name_example = from_entry-name clock app noon 43200 refl (omega arith)

from_entry-before_1970_example : from_entry clock app (name clock app dusk) ≡ none
from_entry-before_1970_example = from_entry-before_1970 clock app dusk 3599 refl
