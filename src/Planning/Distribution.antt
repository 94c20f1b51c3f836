-- ===== src/Planning/Distribution.antt =====
-- `CalculateProb`: how many of the experts of a pool are activated, if each is activated by itself
-- with a given probability. The array is updated in place, from its end down.
pub mod Cells
pub mod Total
use block_lut.Prelude.{ℕ, zero, suc, List, [], ◌∷◌, length, get_or, set_at, replicate}
use block_lut.Planning.Scalars.{Arithmetic}

module _ {A : Type 0} (n : Arithmetic A) where
  -- The inner loop, for `j` down to 1.
  unfoldable pub update_cells : ℕ → A → List A → List A
  update_cells zero p output = output
  update_cells (suc j) p output = update_cells j p (
      set_at output (suc j) (
        n.add (n.mul (get_or output (suc j) n.zero) (n.sub n.one p))
          (n.mul (get_or output j n.zero) p)))

  -- The body of the outer loop.
  unfoldable pub add_prob : ℕ → A → List A → List A
  unfolding update_cells
  add_prob cache_pool_size p output =
      let updated = update_cells cache_pool_size p output in
      set_at updated 0 (n.mul (get_or updated 0 n.zero) (n.sub n.one p))

  unfoldable pub add_probs : ℕ → List A → List A → List A
  unfolding add_prob
  add_probs cache_pool_size [] output = output
  add_probs cache_pool_size (p ∷ probs) output =
      add_probs cache_pool_size probs (add_prob cache_pool_size p output)

  unfoldable pub calculate_prob : List A → List A
  unfolding add_probs
  calculate_prob prob_distribution =
      let cache_pool_size = length prob_distribution in
      add_probs cache_pool_size prob_distribution (n.one ∷ replicate cache_pool_size n.zero)
