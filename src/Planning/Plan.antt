-- ===== src/Planning/Plan.antt =====
-- `PlanCache`: from a trace to the share of the memory for experts in full. The trace is what
-- `torch.load` gives. The three components have their numbers from one type.
use block_lut.Prelude.{ℕ, Bool, true, false, not, List, [], ◌∷◌, sum, ◌==◌}
use block_lut.Outcome.{Result, ok, require, zero_division, ◌>>=◌, ◌>>◌}
use block_lut.Planning.Trace.{Trace, many_batches_data}
use block_lut.Planning.Scaling.{Reals, scale_to_k}
use block_lut.Planning.Weights.{Arrays, coverage_to_weight, weight_to_prob}
use block_lut.Planning.Delay.{Estimates}
use block_lut.Planning.Pool.{Pool, cache_pool_planning_simu}

pub record Planner (A : Type 0) : Type 0 where
  pub reals : Reals A
  pub arrays : Arrays A
  pub estimates : Estimates A
  -- 0.99
  pub nearly_one : A

-- `p / sum(...)` for each count: integers divided by 0 are a ZeroDivisionError.
unfoldable pub shares : {A : Type 0} → Estimates A → List ℕ → List ℕ → Result (List A)
shares f many [] = ok []
shares f many (p ∷ rest) =
    require (not (sum many == 0)) zero_division >> shares f many rest >>= λ ps.
    ok (f.div (f.count p) (f.count (sum many)) ∷ ps)

unfoldable pub obtain_dist_from_trace : {A : Type 0} → Estimates A → ℕ → Trace → Result (List A)
unfolding many_batches_data shares
obtain_dist_from_trace f batch_size trace =
    many_batches_data batch_size trace >>= λ many. shares f many many

module _ {A : Type 0} (n : Planner A) where
  -- `cps_probs`
  unfoldable pub bernoulli_probs : Trace → ℕ → ℕ → Result (List A)
  unfolding obtain_dist_from_trace scale_to_k coverage_to_weight weight_to_prob
  bernoulli_probs trace batch_size k = do
    sorted_prob_dist ← obtain_dist_from_trace n.estimates batch_size trace
    target_probs ← scale_to_k n.reals sorted_prob_dist (n.estimates.count k)
    sorted_prob_weight ← coverage_to_weight n.arrays target_probs k 50
    ok (weight_to_prob n.arrays sorted_prob_weight)

  -- `best_cache_pool_ratio if feasible else 0.99, feasible`
  unfoldable pub or_nearly_one : A × Bool → A × Bool
  or_nearly_one (ratio, true) = (ratio, true)
  or_nearly_one (ratio, false) = (n.nearly_one, false)

  -- The pool's `k` and probabilities are those that the trace gives.
  unfoldable pub plan_cache : Trace → ℕ → ℕ → Pool A → Result (A × Bool)
  unfolding bernoulli_probs cache_pool_planning_simu or_nearly_one
  plan_cache trace batch_size k pool = do
    cps_probs ← bernoulli_probs trace batch_size k
    let avgk = n.estimates.int (n.reals.sum cps_probs)
    best ← cache_pool_planning_simu n.estimates (record pool { k = avgk; all_probs = cps_probs })
    ok (or_nearly_one best)
