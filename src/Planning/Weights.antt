-- ===== src/Planning/Weights.antt =====
-- `CoverageToWeight` and `WeightToProb`: the weights that are refined until the coverage that they
-- give is the one that the trace has. What numpy does with arrays of floats is in `Arrays`.
use block_lut.Prelude.{ℕ, zero, suc, Bool, true, false, List, [], ◌∷◌, map, length, get_or, range'}
use block_lut.Outcome.{Result, ok, require, value_error, ◌>>◌}
use block_lut.Planning.Scalars.{Arithmetic}
use block_lut.Planning.Coverage.{dp, e_minus_i_k_minus_1}

pub record Arrays (A : Type 0) : Type 0 where
  pub arithmetic : Arithmetic A
  pub div : A → A → A
  -- 1e-12
  pub tiny : A
  -- `np.isclose(np.sum(pi), k)`
  pub is_close : List A → ℕ → Bool
  -- `np.linalg.norm(current_pi - pi) < tol`
  pub converged : List A → List A → Bool
  pub mean : List A → A

module _ {A : Type 0} (f : Arrays A) where
  -- `pi / (1.0 - pi + 1e-12)`
  unfoldable pub first_weights : List A → List A
  first_weights pi =
      map (λ p. f.div p (f.arithmetic.add (f.arithmetic.sub f.arithmetic.one p) f.tiny)) pi

  -- `w[i] * e_minus_i_k_minus_1 / dp[N][k]`
  unfoldable pub current_pi : ℕ → List A → List A
  unfolding dp e_minus_i_k_minus_1
  current_pi k w =
      let zero_weight = f.arithmetic.zero in
      let whole = get_or (get_or (dp f.arithmetic k w) (length w) []) k zero_weight in
      map
        (λ i.
          f.div (f.arithmetic.mul (get_or w i zero_weight) (e_minus_i_k_minus_1 f.arithmetic k w i))
            whole)
        (range' 0 (length w))

  -- `w * (pi / (current_pi + 1e-12))`
  unfoldable pub correct : List A → List A → List A → List A
  correct (w ∷ ws) (p ∷ ps) (c ∷ cs) =
      f.arithmetic.mul w (f.div p (f.arithmetic.add c f.tiny)) ∷ correct ws ps cs
  correct ws ps cs = []

  -- `w /= np.mean(w)`
  unfoldable pub normalize_weights : List A → List A
  normalize_weights w = map (λ x. f.div x (f.mean w)) w

  -- The loop over the iterations that are left.
  unfoldable pub refine : ℕ → ℕ → List A → List A → List A
  unfolding current_pi correct normalize_weights
  refine zero k pi w = w
  refine (suc left) k pi w = elim (f.converged (current_pi k w) pi) [
    | true ↦ w
    | false ↦ refine left k pi (normalize_weights (correct w pi (current_pi k w)))
  ]

  unfoldable pub coverage_to_weight : List A → ℕ → ℕ → Result (List A)
  unfolding first_weights refine
  coverage_to_weight target_probs k max_iter = do
    require (f.is_close target_probs k) value_error
    ok (refine max_iter k target_probs (first_weights target_probs))

  unfoldable pub weight_to_prob : List A → List A
  weight_to_prob weight = map (λ w. f.div w (f.arithmetic.add f.arithmetic.one w)) weight
