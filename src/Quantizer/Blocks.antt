-- ===== src/Quantizer/Blocks.antt =====
-- The blocks of a tensor, each normalised by its largest absolute value, and `train`.
pub mod Rows
pub mod Trained
use mathlib.Core.List.{flatten}
use block_lut.Prelude.{
  ℕ, zero, suc, ◌-◌, ◌*◌, List, [], ◌∷◌, ◌++◌, map, length, take, drop, replicate,
}
use block_lut.Outcome.{Result, ok, raise, zero_division, ◌>>=◌}
use block_lut.Split.{CodeType, ceil_div}
use block_lut.Quantizer.Numbers.{Numbers}
use block_lut.Quantizer.State.{LutQuantizer}
use block_lut.Quantizer.Kmeans.{train_kmeans}
use block_lut.Quantizer.Nested.{train_nested_codebooks}

-- `view(-1, block_size)`, for `num_blocks` blocks
unfoldable pub block_rows : {A : Type 0} → ℕ → ℕ → List A → List (List A)
block_rows zero block_size xs = []
block_rows (suc num_blocks) block_size xs =
    take block_size xs ∷ block_rows num_blocks block_size (drop block_size xs)

module _ {A : Type 0} (n : Numbers A) where
  -- Zeros up to `padded_size`.
  unfoldable pub padded : ℕ → List A → List A
  padded padded_size xs = xs ++ replicate (padded_size - length xs) n.zero

  -- `math.ceil(total_elements / 0)` is a ZeroDivisionError.
  unfoldable pub blocks_of : ℕ → List A → Result (List (List A))
  unfolding block_rows padded
  blocks_of zero xs = raise zero_division
  blocks_of (suc b) xs =
      let num_blocks = ceil_div (length xs) (suc b) in
      ok (block_rows num_blocks (suc b) (padded (num_blocks * suc b) xs))

  unfoldable pub absmax_of : List A → A
  absmax_of block = n.clamp_min n.tiny (n.amax (map n.abs block))

  unfoldable pub normalize : List A → List A
  unfolding absmax_of
  normalize block = map (λ x. n.div x (absmax_of block)) block

  -- `normalized.reshape(-1)`
  unfoldable pub normalized : List (List A) → List A
  unfolding normalize
  normalized blocks = flatten (map normalize blocks)

  -- `_train_basic_lut`
  unfoldable pub train_basic_lut : LutQuantizer A → List A → ℕ → Result (LutQuantizer A)
  unfolding train_kmeans
  train_basic_lut q xs n_iter =
      train_kmeans n q 0 xs q.lut_size n_iter 200000 >>= λ trained. ok (trained.1)

  -- The codebook of the normalised blocks.
  unfoldable pub train_block_lut : LutQuantizer A → List A → ℕ → Result (List A × LutQuantizer A)
  unfolding blocks_of normalized train_kmeans
  train_block_lut q xs n_iter = do
    blocks ← blocks_of q.block_size xs
    let train_data = normalized blocks
    (codebook, trained) ← train_kmeans n q 0 train_data q.lut_size n_iter 200000
    ok (train_data, trained)

  -- The branches on the code type. What `__init__` does not let through trains nothing.
  unfoldable pub train_as : CodeType → LutQuantizer A → List A → ℕ → Result (LutQuantizer A)
  unfolding train_basic_lut train_block_lut train_nested_codebooks
  train_as CodeType.lut q xs n_iter = train_basic_lut q xs n_iter
  train_as CodeType.blocklut q xs n_iter = train_block_lut q xs n_iter >>= λ trained. ok (trained.1)
  train_as CodeType.nestedlut q xs n_iter = train_block_lut q xs n_iter >>= λ trained.
      train_nested_codebooks n (trained.1) 2 (trained.0) n_iter
  train_as _ q xs n_iter = ok q

  unfoldable pub train : LutQuantizer A → List A → ℕ → Result (LutQuantizer A)
  unfolding train_as
  train q xs n_iter = train_as q.code_type q xs n_iter
