-- ===== src/MoeBlock.antt =====
-- The MoE blocks of customized/deepseek.py and customized/qwen.py, from the choices of the router
-- on, which are the same in both: the mask and the weights by experts, the dispatch, and the sum
-- of what the dispatcher returns. A router gives for each token its chosen experts and their
-- weights. Of the dispatcher in C++ (csrc), modelled is what its executing threads do with a task:
-- the expert is run on the rows of its tokens. In which order they finish is a parameter, from the
-- calls of the dispatch. Tokens are the rows of a tensor with a shape.
pub mod Masks
pub mod Sums
pub mod Rows
pub mod Terms
pub mod Mixture
use block_lut.Prelude.{
  ℕ, zero, suc, Bool, true, false, ◌&&◌, Option, none, some, List, [], ◌∷◌, map, length, get_or,
  set_at, replicate, range', ltb, ◌==◌, if◌then◌else◌,
}
use block_lut.Outcome.{Result, ok, require, value_error, runtime_error, index_error, ◌>>=◌, ◌>>◌}
use block_lut.Planning.Scalars.{Arithmetic}
use block_lut.Experts.Predictor.{ExpertPredictor}
use block_lut.Experts.Executor.{Event, dispatch_local}
use block_lut.Routing.{Space, select, add_at, scale_rows, add_rows}

-- `F.one_hot`: a class that is not below `num_classes` is a RuntimeError.
unfoldable pub all_below : ℕ → List ℕ → Bool
all_below num_classes [] = true
all_below num_classes (i ∷ ids) = ltb i num_classes && all_below num_classes ids

unfoldable pub one_hot_check : ℕ → List (List ℕ) → Bool
unfolding all_below
one_hot_check num_classes [] = true
one_hot_check num_classes (ids ∷ rows) = all_below num_classes ids && one_hot_check num_classes rows

-- The row of an expert in the permuted one-hot tensor of a token: a cell for each slot.
unfoldable pub one_hot : ℕ → List ℕ → List ℕ
one_hot expert ids = map (λ i. if i == expert then 1 else 0) ids

-- `torch.logical_or`
unfoldable pub logical_or : ℕ → ℕ → ℕ
logical_or a b = if a == 0 then (if b == 0 then 0 else 1) else 1

-- `router_mask[:, :, 0] = logical_or(router_mask[:, :, 0], router_mask[:, :, i])`, for each `i`
unfoldable pub or_slots : List ℕ → List ℕ → List ℕ
unfolding logical_or
or_slots [] cells = cells
or_slots (i ∷ slots) cells =
    or_slots slots (set_at cells 0 (logical_or (get_or cells 0 0) (get_or cells i 0)))

-- The router's mask of a token: a cell for each expert.
unfoldable pub mask_row : ℕ → ℕ → List ℕ → List ℕ
unfolding one_hot or_slots
mask_row num_experts num_experts_per_tok ids =
    map (λ expert. get_or (or_slots (range' 0 num_experts_per_tok) (one_hot expert ids)) 0 0)
      (range' 0 num_experts)

-- `router_mask[:, expert].bool()`
unfoldable pub token_indices : List (List ℕ) → ℕ → List Bool
token_indices mask expert = map (λ row. ltb 0 (get_or row expert 0)) mask

module _ {A : Type 0} (n : Arithmetic A) where
  -- The sum over the slots of the weight times the cell.
  unfoldable pub weight_of : ℕ → List ℕ → List A → A
  weight_of expert [] weights = n.zero
  weight_of expert (i ∷ ids) [] = n.zero
  weight_of expert (i ∷ ids) (w ∷ weights) =
      n.add (n.mul w (if i == expert then n.one else n.zero)) (weight_of expert ids weights)

  -- `routing_weights_mask` of a token.
  unfoldable pub weight_row : ℕ → List ℕ → List A → List A
  unfolding weight_of
  weight_row num_experts ids weights =
      map (λ expert. weight_of expert ids weights) (range' 0 num_experts)

  unfoldable pub weight_rows : ℕ → List (List ℕ) → List (List A) → List (List A)
  unfolding weight_row
  weight_rows num_experts [] topk_weight = []
  weight_rows num_experts (ids ∷ topk_idx) [] = []
  weight_rows num_experts (ids ∷ topk_idx) (weights ∷ topk_weight) =
      weight_row num_experts ids weights ∷ weight_rows num_experts topk_idx topk_weight

-- The choices of the router, `num_experts_per_tok` for each token with as many weights, and the block's shared experts.
pub record Block (A V : Type 0) : Type 0 where
  pub arithmetic : Arithmetic A
  pub space : Space A V
  pub num_experts : ℕ
  pub num_experts_per_tok : ℕ
  pub choose : V → List ℕ × List A
  pub shared_experts : Option (V → V)

-- What `wait_expert` gives for an expert: its output rows, and its id.
abbrev pub Answer : Type 0 → Type 0
Answer V = List V × ℕ

-- The output of a task of `ExpertDispatcher`: the expert on the rows that the mask gives it.
unfoldable pub exec_expert : {V : Type 0} → (ℕ → V → V) → List V → List (List ℕ) → ℕ → Answer V
unfolding token_indices select
exec_expert expert hidden mask e = (map (expert e) (select (token_indices mask e) hidden), e)

-- `wait_expert`: the outputs of the experts in the order in which they have finished.
unfoldable pub finished_outputs :
    {V : Type 0} → (ℕ → V → V) → List V → List (List ℕ) → List ℕ → List (Answer V)
unfolding exec_expert
finished_outputs expert hidden mask finished = map (exec_expert expert hidden mask) finished

module _ {A V : Type 0} (b : Block A V) where
  -- The loop over the results.
  unfoldable pub combine : List (List ℕ) → List (List A) → List (Answer V) → List V → List V
  unfolding token_indices select scale_rows add_at
  combine mask weights [] output = output
  combine mask weights ((rows, expert) ∷ results) output =
      let chosen = token_indices mask expert in
      combine mask weights results (
        add_at b.space chosen output (
          scale_rows b.space
            (select chosen (map (λ row. get_or row expert b.arithmetic.zero) weights)) rows))

  unfoldable pub with_shared_experts : List V → List V → List V
  unfolding add_rows
  with_shared_experts identity output = elim b.shared_experts [
    | none ↦ output
    | some shared ↦ add_rows b.space output (map shared identity)
  ]

  -- The unpacking of the shape wants three dimensions; without slots there is no slot 0.
  unfoldable pub forward :
      (ℕ → V → V)
      → (List Event → List ℕ)
      → List ℕ
      → List V
      → ℕ
      → Option ExpertPredictor
      → Result (List V × Option ExpertPredictor)
  unfolding one_hot_check mask_row weight_rows combine with_shared_experts finished_outputs
  forward expert finish orig_shape hidden_states layer_id predictor = do
    require (length orig_shape == 3) value_error
    let topk_idx = map (λ x. (b.choose x).0) hidden_states
    let topk_weight = map (λ x. (b.choose x).1) hidden_states
    require (one_hot_check b.num_experts topk_idx) runtime_error
    require (ltb 0 b.num_experts_per_tok) index_error
    let router_mask = map (mask_row b.num_experts b.num_experts_per_tok) topk_idx
    let weights = weight_rows b.arithmetic b.num_experts topk_idx topk_weight
    let (events, result) = dispatch_local b.num_experts router_mask layer_id predictor
    left ← result
    let results = finished_outputs expert hidden_states router_mask (finish events)
    let zeros = replicate (length hidden_states) b.space.zero
    ok (with_shared_experts hidden_states (combine router_mask weights results zeros), left)
