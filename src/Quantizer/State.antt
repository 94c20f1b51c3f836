-- ===== src/Quantizer/State.antt =====
-- The state of a `LUTQuantizer` and its construction.
use text.Mathlib.Text.{◌==◌}
use block_lut.Prelude.{ℕ, String, Option, none, List, if◌then◌else◌}
use block_lut.Split.{CodeType}
use block_lut.Outcome.{Result, ok, raise, assertion_error, ◌>>=◌}

pub record LutQuantizer (A : Type 0) : Type 0 where
  pub code_type : CodeType
  pub block_size : ℕ
  pub lut_size : ℕ
  pub lut_codebook : Option (List A)
  pub nested_mapped64 : Option (List A)
  pub nested_mapped16 : Option (List A)

-- The `assert` on `code_type`.
unfoldable pub check_code_type : String → Result CodeType
check_code_type code_type =
    if code_type == "LUT"
    then ok CodeType.lut
    else if code_type == "BLOCKLUT"
    then ok CodeType.blocklut
    else if code_type == "NESTEDLUT"
    then ok CodeType.nestedlut
    else raise assertion_error

unfoldable pub init : {A : Type 0} → String → ℕ → ℕ → Result (LutQuantizer A)
unfolding check_code_type
init code_type block_size lut_size = check_code_type code_type >>= λ checked. ok (record {
  code_type = checked;
  block_size = block_size;
  lut_size = lut_size;
  lut_codebook = none;
  nested_mapped64 = none;
  nested_mapped16 = none;
})
