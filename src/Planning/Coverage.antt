-- ===== src/Planning/Coverage.antt =====
-- The tables of `CoverageToWeight`: the weighted sums over the choices of `m` of the first `j`
-- elements (`dp`) and of the elements from the `j`-th on (`b_dp`), and the sum that leaves one
-- element out. A table is the list of its rows.
pub mod Symmetric
pub mod LeaveOut
use block_lut.Prelude.{ℕ, zero, suc, ◌+◌, ◌-◌, List, [], ◌∷◌, replicate, get_or}
use block_lut.Planning.Scalars.{Arithmetic}
use block_lut.Planning.Distribution.Total.{total}

module _ {A : Type 0} (n : Arithmetic A) where
  -- The entries for `m` from 1 on: `prev[m] + w * prev[m-1]`; `last` is `prev[m-1]`.
  unfoldable pub row_rest : A → A → List A → List A
  row_rest w last [] = []
  row_rest w last (x ∷ xs) = n.add x (n.mul w last) ∷ row_rest w x xs

  -- A row from the row before it. The entry for `m = 0` is 1.
  unfoldable pub next_row : A → List A → List A
  unfolding row_rest
  next_row w [] = []
  next_row w (x ∷ xs) = n.one ∷ row_rest w x xs

  -- The row of no elements, for a choice of up to `k`.
  unfoldable pub first_row : ℕ → List A
  first_row k = n.one ∷ replicate k n.zero

  -- The rows of `dp` from a row on.
  unfoldable pub rows_from : List A → List A → List (List A)
  unfolding next_row
  rows_from row [] = row ∷ []
  rows_from row (w ∷ ws) = row ∷ rows_from (next_row w row) ws

  unfoldable pub dp : ℕ → List A → List (List A)
  unfolding rows_from first_row
  dp k ws = rows_from (first_row k) ws

  -- `b_dp` from row 1 on: row `j` is made of row `j + 1`.
  unfoldable pub rows_back : ℕ → List A → List (List A)
  unfolding next_row first_row
  rows_back k [] = first_row k ∷ []
  rows_back k (w ∷ ws) = let rest = rows_back k ws in next_row w (get_or rest 0 []) ∷ rest

  unfoldable pub b_dp : ℕ → List A → List (List A)
  unfolding rows_back
  b_dp k ws = first_row k ∷ rows_back k ws

  -- The loop over `m`: `dp[i][m] * b_dp[i+2][k-1-m]`
  unfoldable pub e_minus_i_k_minus_1 : ℕ → List A → ℕ → A
  unfolding dp b_dp
  e_minus_i_k_minus_1 k ws i =
      total n
        (λ m.
          n.mul (get_or (get_or (dp k ws) i []) m n.zero)
            (get_or (get_or (b_dp k ws) (i + 2) []) (k - 1 - m) n.zero))
        k
