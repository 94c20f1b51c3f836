-- ===== src/Quantizer/Nested.antt =====
-- The nested codebooks: `_greedy_merge`, `_build_mapped_table` and `_train_nested_codebooks`.
pub mod Merging
pub mod Tables
use block_lut.Prelude.{
  ℕ, zero, suc, ◌+◌, ◌/◌, ◌%◌, Bool, true, false, none, some, List, [], ◌∷◌, ◌++◌, map, length,
  take, drop, get_or, set_at, ltb, leb, ◌==◌, if◌then◌else◌,
}
use block_lut.Outcome.{
  Result, ok, raise, require, assertion_error, runtime_error, zero_division, ◌>>=◌, ◌>>◌,
}
use block_lut.Quantizer.Numbers.{Numbers}
use block_lut.Quantizer.State.{LutQuantizer}
use block_lut.Quantizer.Kmeans.{train_kmeans}

-- `xs.repeat(repeats)`
unfoldable pub tile : {A : Type 0} → ℕ → List A → List A
tile zero xs = []
tile (suc repeats) xs = xs ++ tile repeats xs

-- `torch.cat([c[:j], c[j+1:]])`
unfoldable pub remove_at : {A : Type 0} → ℕ → List A → List A
remove_at j c = take j c ++ drop (j + 1) c

-- `table_size // 0` is a ZeroDivisionError.
unfoldable pub repeat_to : {A : Type 0} → List A → ℕ → Result (List A)
unfolding tile
repeat_to [] table_size = raise zero_division
repeat_to (c ∷ cs) table_size =
    let repeats = table_size / length (c ∷ cs) in
    let remainder = table_size % length (c ∷ cs) in
    let table = tile repeats (c ∷ cs) in
    ok (if ltb 0 remainder then table ++ take remainder (c ∷ cs) else table)

unfoldable pub has_codebook : {A : Type 0} → LutQuantizer A → Bool
has_codebook q = elim (q.lut_codebook) [ none ↦ false | some c ↦ true ]

module _ {A : Type 0} (n : Numbers A) where
  -- An entry of `torch.eye`.
  unfoldable pub eye : ℕ → ℕ → A
  eye i j = if i == j then n.one else n.zero

  -- Row `i` of `diffs`, from column `j` on: `|c[j] - c[i]| + eye * inf`.
  unfoldable pub diff_row : ℕ → A → ℕ → List A → List A
  unfolding eye
  diff_row i x j [] = []
  diff_row i x j (y ∷ ys) =
      n.add (n.abs (n.sub y x)) (n.mul (eye i j) n.infinity) ∷ diff_row i x (j + 1) ys

  -- `diffs`, flat, from row `i` on.
  unfoldable pub diffs_from : List A → ℕ → List A → List A
  unfolding diff_row
  diffs_from c i [] = []
  diffs_from c i (x ∷ xs) = diff_row i x 0 c ++ diffs_from c (i + 1) xs

  -- `c[i] = (c[i] + c[j]) / 2` and `c` without `c[j]`
  unfoldable pub merge_pair : ℕ → ℕ → List A → List A
  unfolding remove_at
  merge_pair i j c =
      let merged = n.div (n.add (get_or c i n.zero) (get_or c j n.zero)) n.two in
      remove_at j (set_at c i merged)

  -- The body of the loop: `divmod(diffs.argmin().item(), c.shape[0])`.
  unfoldable pub merge_round : List A → List A
  unfolding merge_pair diffs_from
  merge_round c =
      let closest = n.argmin (diffs_from c 0 c) in
      merge_pair (closest / length c) (closest % length c) c

  -- `while c.shape[0] > target_k`
  unfoldable pub merge_loop : ℕ → ℕ → List A → List A
  unfolding merge_round
  merge_loop zero target_k c = c
  merge_loop (suc fuel) target_k c = elim (ltb target_k (length c)) [
    | true ↦ merge_loop fuel target_k (merge_round c)
    | false ↦ c
  ]

  unfoldable pub greedy_merge : List A → ℕ → List A
  unfolding merge_loop
  greedy_merge centroids target_k = n.sort (merge_loop (length centroids) target_k centroids)

  unfoldable pub build_mapped_table : List A → ℕ → Result (List A)
  unfolding repeat_to
  build_mapped_table centroids table_size = do
    require (leb (length centroids) table_size) assertion_error
    table ← repeat_to centroids table_size
    ok (map n.bfloat16 table)

  unfoldable pub train_nested_codebooks : LutQuantizer A → ℕ → List A → ℕ → Result (LutQuantizer A)
  unfolding train_kmeans greedy_merge build_mapped_table has_codebook
  train_nested_codebooks q draw xs n_iter = do
    require (has_codebook q) runtime_error
    (centroids_64, q64) ← train_kmeans n q draw xs 64 n_iter 200000
    let centroids_16 = greedy_merge centroids_64 16
    mapped64 ← build_mapped_table centroids_64 256
    mapped16 ← build_mapped_table centroids_16 256
    ok (record q64 { nested_mapped64 = some mapped64; nested_mapped16 = some mapped16 })
