-- ===== src/Offload/Naming/Lookup.antt =====
-- What is found in the map after a restart and after a renaming.
use block_lut.Outcome.{Result, ok, raise}
use block_lut.Dict
use block_lut.Dict.{Dict}

abbrev value : {A : Type 0} → A → Result A → A
value d (raise e) = d
value d (ok a) = a
