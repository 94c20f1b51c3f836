-- ===== src/Quantizer/Blocks/Rows.antt =====
-- The rows of a tensor cut into blocks, and what maps them block by block.
use mathlib.Core.List.{flatten}
use block_lut.Prelude.{
  ℕ, zero, suc, ◌*◌, ◌≤◌, ◌≡◌, refl, ap, List, map, length, take, drop, arith, length-append,
  length-take, length-drop,
}
use block_lut.Split.{ceil_div}
use block_lut.Quantizer.Blocks.{block_rows}

module _ {A : Type 0} where
  pub length-block_rows : (k b : ℕ) (xs : List A) → length (block_rows k b xs) ≡ k
  unfolding block_rows
  length-block_rows zero b xs = refl
  length-block_rows (suc k) b xs = ap suc (length-block_rows k b (drop b xs))

  pub length-flatten_rows :
      (g : List A → List A) (k b : ℕ) (xs : List A)
      → ((row : List A) → length (g row) ≡ length row)
      → length xs ≡ k * b
      → length (flatten (map g (block_rows k b xs))) ≡ k * b
  unfolding block_rows flatten
  length-flatten_rows g zero b xs same h = omega arith
  length-flatten_rows g (suc k) b xs same h = grind (
    arith,
    length-flatten_rows g k b (drop b xs) same (grind (arith, length-drop b xs)),
    length-append (g (take b xs)) (flatten (map g (block_rows k b (drop b xs)))),
    same (take b xs),
    length-take b xs,
  )

-- The blocks reach the end of the tensor.
pub rounded_up : (l b : ℕ) → l ≤ ceil_div l (suc b) * suc b
rounded_up l b = grind arith
