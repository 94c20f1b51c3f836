-- ===== src/EngineInit/Uploads.antt =====
-- What `init` hands to the engine in C++: the calls, in order, and the sizes of their tables.
use text.Mathlib.Text.{◌==◌}
use block_lut.Prelude.{
  ℕ, ◌-◌, ◌<◌, ◌≡◌, Bool, ◌||◌, String, some, List, [], ◌∷◌, ◌++◌, map, length, get_or, replicate,
  if◌then◌else◌,
}
use block_lut.Prelude.{◌==◌ as ℕ_eq}
use block_lut.Outcome.{ok}
use block_lut.LutTables.{Floats}
use block_lut.Planning.Trace.{Trace}
use block_lut.Planning.Plan.{Planner}
use block_lut.Dict
use block_lut.EngineInit.{
  LutState, EngineConfig, HandleCall, set_lut_table, set_nested_lut_tables, has_blocks,
  upload_table, upload_nested,
}

-- The tests of a code type that `init` makes, for at most one of the three types with LUTs.
abbrev IsOne : String → Bool → Bool → Bool → Type 0
IsOne code_type l b n =
    ((code_type == "LUT") ≡ l) × ((code_type == "BLOCKLUT") ≡ b) × ((code_type == "NESTEDLUT") ≡ n)

-- The uploads that a code type calls for.
pub uploads_of : {A : Type 0} → String → List ℕ → List ℕ → List ℕ → List (HandleCall A)
uploads_of code_type table mapped64 mapped16 =
    if code_type == "LUT" || code_type == "BLOCKLUT"
    then set_lut_table table ∷ []
    else if code_type == "NESTEDLUT"
    then set_lut_table table ∷ set_nested_lut_tables table (some mapped64) (some mapped16) ∷ []
    else []

-- The bits of a sorted LUT: of its own entries for LUT, and otherwise with its last entry
-- repeated until there are 256.
pub table_of : {B : Type 0} → Floats B → String → List B → List ℕ
table_of f code_type sorted = map f.bits (
    if code_type == "LUT"
    then sorted
    else (sorted ++ replicate (256 - length sorted) (get_or sorted (length sorted - 1) f.zero)))

module _ {A B : Type 0} (n : Planner A) (f : Floats B) (lut : List B) (mapped64 mapped16 : List ℕ)
    (some_entry : 0 < length (f.sort lut)) where
  open n use {estimates}

  -- The uploads after a call of `load_luts`.
  abbrev Uploaded : String → LutState → Type 0
  Uploaded code_type s =
      (basic blocks nested : List (HandleCall A)) × (upload_table (code_type == "LUT") s ≡ ok basic)
      × (upload_table (has_blocks code_type) s ≡ ok blocks)
      × (upload_nested (code_type == "NESTEDLUT") s ≡ ok nested)
      × ((basic ++ blocks ++ nested)
          ≡ uploads_of code_type (table_of f code_type (f.sort lut)) mapped64 mapped16)

  -- The configuration with the delay of a chunk and the ratio of its code type.
  abbrev pub profiled_config : EngineConfig A → ℕ → ℕ → EngineConfig A
  profiled_config c delay ratio = record c {
    decompression_delay = estimates.div (estimates.count delay) (estimates.count c.num_file_chunks);
    compression_ratio = estimates.div (estimates.count ratio) (estimates.count 100);
  }
