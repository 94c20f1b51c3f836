-- ===== src/Experts/Executor.antt =====
-- `ExpertExecutor.dispatch_local` of experts/expert_executor.py, as the calls that it makes of the
-- dispatcher, in order, and the predictor that it leaves. What `wait_expert` returns is what
-- `dispatch_local` returns, for which MoeBlock has a parameter; the tensors are left out of `set_inputs`.
pub mod Tokens
pub mod Dispatch
pub mod Forecast
use block_lut.Prelude.{
  ℕ, zero, suc, ◌+◌, Option, none, some, List, [], ◌∷◌, ◌++◌, map, length, get_or, range', sum, ltb,
  if◌then◌else◌,
}
use block_lut.Outcome.{Result, ok, raise, ◌>>=◌}
use block_lut.Experts.Predictor.{ExpertPredictor, update, predict_next_layer}

-- The router's mask: a row for each token, a column for each expert.
abbrev pub RouterMask : Type 0
RouterMask = List (List ℕ)

pub data Event : Type 0 where
  set_inputs ops_schedule wait_expert : Event
  set_expected_queue : ℕ → Event
  -- layer_id, expert_id, num_token_reqs
  enqueue_expert : ℕ → ℕ → ℕ → Event
  -- layer_id, expert_id, priority
  submit_prefetch : ℕ → ℕ → ℕ → Event

-- The tokens that are routed to an expert.
abbrev pub column : RouterMask → ℕ → ℕ
column mask j = sum (map (λ row. get_or row j 0) mask)

-- The sum over the tokens.
unfoldable pub expert_count : ℕ → RouterMask → List ℕ
expert_count num_expert mask = map (column mask) (range' 0 num_expert)

-- `np.arange(...)[expert_count > 0]`, from an index on
unfoldable pub expert_list : ℕ → List ℕ → List ℕ
expert_list i [] = []
expert_list i (n ∷ counts) =
    let rest = expert_list (suc i) counts in if ltb 0 n then i ∷ rest else rest

-- `expert_count[expert_count > 0]`
unfoldable pub token_counts : List ℕ → List ℕ
token_counts [] = []
token_counts (n ∷ counts) = let rest = token_counts counts in if ltb 0 n then n ∷ rest else rest

-- The two lists have the same length.
unfoldable pub enqueue_all : ℕ → List ℕ → List ℕ → List Event
enqueue_all layer_id (expert_id ∷ experts) (n ∷ counts) =
    enqueue_expert layer_id expert_id n ∷ enqueue_all layer_id experts counts
enqueue_all layer_id experts counts = []

unfoldable pub prefetch_all : ℕ → ℕ → List ℕ → List Event
prefetch_all next_layer_id priority [] = []
prefetch_all next_layer_id priority (expert_id ∷ experts) =
    submit_prefetch next_layer_id expert_id priority
    ∷ prefetch_all next_layer_id (suc priority) experts

-- From the prediction on.
unfoldable pub prefetch_predicted :
    ExpertPredictor → Result (ℕ × List ℕ) → List Event × Result (Option ExpertPredictor)
unfolding prefetch_all
prefetch_predicted p (raise e) = ([], raise e)
prefetch_predicted p (ok (next_layer_id, predicted)) =
    (prefetch_all next_layer_id 1 predicted, ok (some p))

-- From the updated predictor on.
unfoldable pub run_experts :
    ℕ → Result ExpertPredictor → List Event × Result (Option ExpertPredictor)
unfolding prefetch_predicted
run_experts layer_id (raise e) = ([], raise e)
run_experts layer_id (ok p) =
    let (events, result) = prefetch_predicted p (predict_next_layer layer_id p) in
    (ops_schedule ∷ wait_expert ∷ events, result)

-- From the update of the predictor on.
unfoldable pub schedule :
    ℕ → List ℕ → Option ExpertPredictor → List Event × Result (Option ExpertPredictor)
unfolding run_experts
schedule layer_id experts none = (ops_schedule ∷ wait_expert ∷ [], ok none)
schedule layer_id experts (some p) = run_experts layer_id (update (layer_id, experts) p)

unfoldable pub dispatch_local :
    ℕ → RouterMask → ℕ → Option ExpertPredictor → List Event × Result (Option ExpertPredictor)
unfolding expert_count expert_list token_counts enqueue_all schedule
dispatch_local num_expert mask layer_id predictor =
    let counts = expert_count num_expert mask in
    let experts = expert_list 0 counts in
    let (events, result) = schedule layer_id experts predictor in
    (
      set_inputs
            ∷ set_expected_queue (length experts)
            ∷ enqueue_all layer_id experts (token_counts counts)
          ++ events,
      result,
    )
