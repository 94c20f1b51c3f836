-- ===== src/LutTables.antt =====
-- The LUTs of `LUT_MoEEngine` in runtime/model_offload.py: how they are loaded, and how weights
-- become indices. A LUT file is the array that `np.load` gives, or `none` where the path is empty
-- or leads to no file; a bf16 value is its bit pattern.
pub mod Keys
pub mod Shapes
use block_lut.Prelude.{
  ℕ, zero, suc, ◌+◌, ◌-◌, ◌*◌, ◌%◌, Option, none, some, List, [], ◌∷◌, ◌++◌, map, length, take,
  replicate, ltb, ◌==◌, if◌then◌else◌, true, false,
}
use mathlib.Core.List.{flatten}
use block_lut.Outcome.{Result, ok, raise, file_not_found, index_error, ◌>>=◌}
use block_lut.BitPlane.{shr, low_bits}
use block_lut.Split.{ceil_div}
use block_lut.Quantizer.Blocks.{block_rows}

-- `np.where(u & 0x8000, ~u, u ^ 0x8000)` on uint16: negative values are turned round, and the
-- others, whose sign bit is clear, get it set.
unfoldable pub key : ℕ → ℕ
key u = if low_bits (shr u 15) 1 == 0 then u + 32768 else 65535 - u

-- Arrays of floats, by what numpy and torch do with them.
pub record Floats (A : Type 0) : Type 0 where
  pub zero : A
  pub two : A
  -- 1e-12
  pub tiny : A
  pub abs : A → A
  pub add : A → A → A
  pub div : A → A → A
  pub maximum : A → A → A
  pub amax : List A → A
  pub sort : List A → List A
  -- The bits of a value as bf16.
  pub bits : A → ℕ
  pub searchsorted : List A → A → ℕ

pub record Lut (A : Type 0) : Type 0 where
  pub lut_sorted : List A
  pub lut_uint16 : List ℕ
  pub lut_thresholds : List ℕ

pub record BlockLut (A : Type 0) : Type 0 where
  pub blocklut_sorted : List A
  pub lut_uint16 : List ℕ

-- `lut[-1]`
unfoldable pub last : {A : Type 0} → List A → Result A
last [] = raise index_error
last (x ∷ []) = ok x
last (x ∷ y ∷ xs) = last (y ∷ xs)

module _ {A : Type 0} (f : Floats A) where
  -- `(lut[:-1] + lut[1:]) / 2.0`
  unfoldable pub midpoints : List A → List A
  midpoints [] = []
  midpoints (x ∷ []) = []
  midpoints (x ∷ y ∷ xs) = f.div (f.add x y) f.two ∷ midpoints (y ∷ xs)

  unfoldable pub load_lut : Option (List A) → Result (Lut A)
  unfolding midpoints key
  load_lut none = raise file_not_found
  load_lut (some lut) =
      let lut_sorted = f.sort lut in
      ok (record {
        lut_sorted = lut_sorted;
        lut_uint16 = map f.bits lut_sorted;
        lut_thresholds = map (λ m. key (f.bits m)) (midpoints lut_sorted);
      })

  -- Padded to 256 entries with the last one.
  unfoldable pub pad_lut : List A → Result (List A)
  unfolding last
  pad_lut xs = elim (ltb (length xs) 256) [
    | true ↦ last xs >>= λ x. ok (xs ++ replicate (256 - length xs) x)
    | false ↦ ok xs
  ]

  unfoldable pub load_blocklut : Option (List A) → Result (BlockLut A)
  unfolding pad_lut
  load_blocklut none = raise file_not_found
  load_blocklut (some lut) = pad_lut (f.sort lut) >>= λ for_gpu.
      ok (record { blocklut_sorted = f.sort lut; lut_uint16 = map f.bits for_gpu })

  unfoldable pub block_absmax : List A → A
  block_absmax block = f.maximum (f.amax (map f.abs block)) f.tiny

  unfoldable pub normalize_block : List A → List A
  unfolding block_absmax
  normalize_block block = map (λ x. f.div x (block_absmax block)) block

  -- The indices of a weight, as uint8, and the bits of the scales of its blocks of 128.
  unfoldable pub quantize_weight_to_blocklut : BlockLut A → List A → List ℕ × List ℕ
  unfolding block_rows normalize_block block_absmax midpoints
  quantize_weight_to_blocklut lut x =
      let nb = ceil_div (length x) 128 in
      let blocks = block_rows nb 128 (x ++ replicate (nb * 128 - length x) f.zero) in
      let indices =
        map (λ y. f.searchsorted (midpoints lut.blocklut_sorted) y % 256)
          (flatten (map normalize_block blocks)) in
      (take (length x) indices, map (λ b. f.bits (block_absmax b)) blocks)

-- `mapped64` and `mapped16` of the LUT's directory: the first one missing is raised.
unfoldable pub load_nested_lut_extras : Option (List ℕ) → Option (List ℕ) → Result (List ℕ × List ℕ)
load_nested_lut_extras none mapped16 = raise file_not_found
load_nested_lut_extras (some mapped64) none = raise file_not_found
load_nested_lut_extras (some mapped64) (some mapped16) = ok (mapped64, mapped16)

-- The indices of bf16 weights, as uint8, from their bits. `searchsorted` is that of numpy.
unfoldable pub quantize_weight_to_lut : (List ℕ → ℕ → ℕ) → List ℕ → List ℕ → List ℕ
unfolding key
quantize_weight_to_lut searchsorted lut_thresholds weights =
    map (λ u. searchsorted lut_thresholds (key u) % 256) weights
