-- ===== src/Planning/Scaling.antt =====
-- `scale_to_k`: the probabilities scaled to the sum `k` and cut off at 1. What numpy does with
-- floats is the parameter `Reals`.
pub mod Members
pub mod Ends
use block_lut.Outcome.{Result, ok, raise, runtime_error, index_error}
use block_lut.Prelude.{
  ℕ, zero, suc, ◌-◌, Bool, true, false, not, Option, none, some, List, [], ◌∷◌, map, length, get_or,
  set_at, range', ◌==◌, if◌then◌else◌,
}

pub record Reals (A : Type 0) : Type 0 where
  pub zero : A
  pub tol : A
  -- `1.0 - tol`
  pub cap : A
  pub sum : List A → A
  pub mul : A → A → A
  pub div : A → A → A
  pub minus_count : A → ℕ → A
  pub is_zero : A → Bool
  pub less : A → A → Bool
  pub at_least : A → A → Bool

-- `i in indices`
unfoldable pub member : ℕ → List ℕ → Bool
member i [] = false
member i (j ∷ js) = let rest = member i js in if i == j then true else rest

-- The indices that pass a test.
unfoldable pub choose : (ℕ → Bool) → List ℕ → List ℕ
choose test [] = []
choose test (i ∷ is) = let rest = choose test is in if test i then i ∷ rest else rest

-- `pi[indices] = ...`, with the value for each index.
unfoldable pub write : {A : Type 0} → List ℕ → (ℕ → A) → List A → List A
write [] value pi = pi
write (i ∷ is) value pi = write is value (set_at pi i (value i))

module _ {A : Type 0} (r : Reals A) where
  unfoldable pub new_value : List A → A → ℕ → A
  new_value pi factor i = r.mul (get_or pi i r.zero) factor

  unfoldable pub over_ones : List A → A → List ℕ → List ℕ
  unfolding choose new_value
  over_ones pi factor remaining = choose (λ i. r.at_least (new_value pi factor i) r.cap) remaining

  unfoldable pub not_in : List ℕ → List ℕ → List ℕ
  unfolding choose member
  not_in over remaining = choose (λ i. not (member i over)) remaining

  -- An array of no indices is one of floats, which as an index is an IndexError.
  unfoldable pub write_zero : List ℕ → List A → Result (List A)
  unfolding write
  write_zero [] pi = raise index_error
  write_zero (i ∷ left) pi = ok (write (i ∷ left) (λ m. r.zero) pi)

  -- `while len(remaining_indices) > 0`; out of fuel is a RuntimeError.
  unfoldable pub scale_loop : ℕ → List A → List ℕ → A → Result (List A)
  unfolding new_value over_ones not_in write write_zero
  scale_loop fuel pi [] remaining_k = ok pi
  scale_loop zero pi (i ∷ remaining) remaining_k = raise runtime_error
  scale_loop (suc fuel) pi (i ∷ remaining) remaining_k =
      let all = i ∷ remaining in
      let current_sum = r.sum (map (λ j. get_or pi j r.zero) all) in
      let factor = r.div remaining_k current_sum in
      elim (r.less current_sum r.tol) [
        | true ↦ ok pi
        | false ↦ elim (over_ones pi factor all) [
          | [] ↦ ok (write all (new_value pi factor) pi)
          | j ∷ js ↦
              let capped = write (j ∷ js) (λ m. r.cap) pi in
              let left_k = r.minus_count remaining_k (length (j ∷ js)) in
              let left = not_in (j ∷ js) all in
              elim (r.at_least r.zero left_k) [
                | true ↦ write_zero left capped
                | false ↦ scale_loop fuel capped left left_k
              ]
        ]
      ]

  unfoldable pub scale_to_k : List A → A → Result (List A)
  unfolding scale_loop
  scale_to_k probs k =
      if r.is_zero (r.sum probs)
      then ok probs
      else (let pi = map (λ p. r.mul p (r.div k (r.sum probs))) probs in
          scale_loop (length pi) pi (range' 0 (length pi)) k)
