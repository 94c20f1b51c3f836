-- ===== src/Quantizer/Files.antt =====
-- `save` and `load`: the codebooks as files of a directory, by name. What `.numpy()` does to a
-- tensor is a parameter, since numpy has no bf16.
use block_lut.Prelude.{Bool, true, false, String, Option, none, some, List, string_discrete, map}
use mathlib.Core.Option as Option
use block_lut.Outcome.{Result, ok, ◌>>=◌}
use block_lut.Dict
use block_lut.Dict.{Dict}
use block_lut.Quantizer.Numbers.{Numbers}
use block_lut.Quantizer.State.{LutQuantizer}

-- `np.save(...)` of a codebook that is there.
unfoldable pub save_file :
    {A : Type 0}
    → (List A → Result (List A))
    → String
    → Option (List A)
    → Dict String (List A)
    → Result (Dict String (List A))
unfolding Dict.put
save_file numpy name none files = ok files
save_file numpy name (some codebook) files =
    numpy codebook >>= λ array. ok (Dict.put string_discrete name array files)

unfoldable pub save :
    {A : Type 0}
    → (List A → Result (List A))
    → LutQuantizer A
    → Dict String (List A)
    → Result (Dict String (List A))
unfolding save_file
save numpy q files = do
  with256 ← save_file numpy "blocklut_256.npy" q.lut_codebook files
  with64 ← save_file numpy "nested_lut_mapped64.npy" q.nested_mapped64 with256
  save_file numpy "nested_lut_mapped16.npy" q.nested_mapped16 with64

module _ {A : Type 0} (n : Numbers A) where
  -- The file of a name, as bf16.
  unfoldable pub read_codebook : String → Dict String (List A) → Option (List A)
  unfolding Dict.get
  read_codebook name files = Option.map (map n.bfloat16) (Dict.get string_discrete name files)

  -- The attribute stays where there is no file.
  unfoldable pub or_kept : Option (List A) → Option (List A) → Option (List A)
  or_kept none kept = kept
  or_kept (some codebook) kept = some codebook

  -- The loop over the nested codebooks.
  unfoldable pub load_nested : Dict String (List A) → LutQuantizer A → LutQuantizer A
  unfolding read_codebook or_kept
  load_nested files q = record q {
    nested_mapped64 = or_kept (read_codebook "nested_lut_mapped64.npy" files) q.nested_mapped64;
    nested_mapped16 = or_kept (read_codebook "nested_lut_mapped16.npy" files) q.nested_mapped16;
  }

  unfoldable pub load : Dict String (List A) → LutQuantizer A → Bool × LutQuantizer A
  unfolding load_nested
  load files q = elim (read_codebook "blocklut_256.npy" files) [
    | some codebook ↦ (true, load_nested files (record q { lut_codebook = some codebook }))
    | none ↦ elim (read_codebook "full256.npy" files) [
      | some codebook ↦ (true, load_nested files (record q { lut_codebook = some codebook }))
      | none ↦ (false, q)
    ]
  ]
