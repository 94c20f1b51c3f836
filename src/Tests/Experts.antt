-- ===== src/Tests/Experts.antt =====
-- The predictor, the executor and the prefetcher on a small model.
use native.Mathlib.Decide.{ℕ_discrete}
use block_lut.Prelude.{
  ℕ, ◌+◌, ◌<◌, ◌%◌, ◌≡◌, refl, some, none, List, [], ◌∷◌, ◌++◌, map, min, length, sum, All, arith,
  ltb, if◌then◌else◌,
}
use block_lut.Outcome.{ok, raise, value_error}
use block_lut.Dict
use block_lut.Counter
use block_lut.Counter.Laws.{occurrences}
use block_lut.Progressive.{key_discrete}
use block_lut.Experts.Predictor
use block_lut.Experts.Predictor.{ExpertPredictor, Update, init}
use block_lut.Experts.Predictor.Follows.{IsFollowing, run, init-IsFollowing}
use block_lut.Experts.Predictor.Ranking.{IsRanking, predict_next_layer-run}
use block_lut.Experts.Executor.{
  RouterMask, Event, set_inputs, set_expected_queue, column, expert_count, expert_list,
  dispatch_local,
}
use block_lut.Experts.Executor.Dispatch.{Enqueued, enqueued, dispatch_local-expected_queue}
use block_lut.Experts.Executor.Forecast.{IsNumbered, submitted, dispatch_local-prefetch}
use block_lut.Experts.Prefetcher
use block_lut.Experts.Prefetcher.{Request, enqueue_prefetch, ExpertTensorMap, prefetch_experts}

abbrev updates : List Update
updates = (0, 1 ∷ 2 ∷ []) ∷ (1, 3 ∷ []) ∷ (0, 2 ∷ []) ∷ []

program : Unit {0}
unfolding run init Predictor.update Predictor.append_within Predictor.predict_next_layer
    Predictor.recent_activated Predictor.scores Counter.update Counter.increment Counter.count
    Counter.nlargest Counter.sort_onto Counter.insert_item Dict.get Dict.put ℕ_discrete
program = tt

abbrev ready : ExpertPredictor
ready = record {
  freq_tables = ((1, 1) ∷ (2, 2) ∷ []) ∷ ((3, 1) ∷ []) ∷ [];
  history = (1, 3 ∷ []) ∷ (0, 2 ∷ []) ∷ [];
  window_size = 2;
  num_sparse_layers = 2;
  prefetcher_topk = 1;
}

run-updates : run updates (init 2 1 2) ≡ ok ready
unfolding program
run-updates = refl

-- From layer 1 the next one is layer 0.
wraps : Predictor.predict_next_layer 1 ready ≡ ok (0, 2 ∷ [])
unfolding program
wraps = refl

predict_next_layer-run_example :
    (p : ExpertPredictor) × (run updates (init 2 1 2) ≡ ok p)
    × (picked rest : List (ℕ × ℕ)) × (Predictor.predict_next_layer 1 p
        ≡ ok ((1 + 1) % 2, map (λ (item : ℕ × ℕ). item.0) picked))
    × IsRanking 2 ((1 + 1) % 2) updates (picked ++ rest)
    × (length picked ≡ min 1 (length (picked ++ rest)))
predict_next_layer-run_example =
    predict_next_layer-run 2 1 2 1 updates (omega arith)
      (omega arith, (omega arith, (omega arith, tt)))

-- Three tokens, four experts, of which the first and the third are used.
abbrev mask : RouterMask
mask = (1 ∷ 0 ∷ 0 ∷ 0 ∷ []) ∷ (1 ∷ 0 ∷ 1 ∷ 0 ∷ []) ∷ (0 ∷ 0 ∷ 1 ∷ 0 ∷ []) ∷ []

dispatch_local-expected_queue_example :
    (rest : List Event) × ((dispatch_local 4 mask 1 none).0
      ≡ set_inputs ∷ set_expected_queue (length (enqueued rest)) ∷ rest)
    × All
        (λ (q : Enqueued). (q.0 ≡ 1) × (q.1 < 4) × (q.2 ≡ column mask q.1) × (0 < q.2))
        (enqueued rest)
    × ((e : ℕ)
        → e < 4
        → occurrences e (map (λ (q : Enqueued). q.1) (enqueued rest))
          ≡ (if ltb 0 (column mask e) then 1 else 0))
    × (sum (map (λ (q : Enqueued). q.2) (enqueued rest)) ≡ sum (map sum mask))
dispatch_local-expected_queue_example =
    dispatch_local-expected_queue 4 1 mask none (refl, (refl, (refl, tt)))

dispatch_local-prefetch_example :
    (p' : ExpertPredictor) × ((dispatch_local 4 mask 1 (some (init 2 1 2))).1 ≡ ok (some p'))
    × IsFollowing 2 1 2 ([] ++ ((1, expert_list 0 (expert_count 4 mask)) ∷ [])) p'
    × (picked rest : List (ℕ × ℕ)) × IsNumbered
        ((1 + 1) % 2)
        1
        (map (λ (item : ℕ × ℕ). item.0) picked)
        (submitted (dispatch_local 4 mask 1 (some (init 2 1 2))).0)
    × IsRanking 2
        ((1 + 1) % 2)
        ([] ++ ((1, expert_list 0 (expert_count 4 mask)) ∷ []))
        (picked ++ rest)
    × (length picked ≡ min 1 (length (picked ++ rest)))
dispatch_local-prefetch_example =
    dispatch_local-prefetch 2 1 2 4 1 mask [] (init 2 1 2) (omega arith) (init-IsFollowing 2 1 2)

abbrev tensors : ExpertTensorMap
tensors = ((0, 0), 10) ∷ ((0, 1), 11) ∷ ((1, 0), 12) ∷ []

one_selected :
    prefetch_experts tensors 2 0 ((0 ∷ 1 ∷ []) ∷ (0 ∷ 0 ∷ []) ∷ []) []
    ≡ (enqueue_prefetch 11 0 ∷ [], ok tt)
unfolding prefetch_experts Prefetcher.select_rows Prefetcher.select_row Prefetcher.sort_by_matrix
    Prefetcher.enqueue_prefetches Dict.get key_discrete ℕ_discrete
one_selected = refl

-- Two selected experts make the sort fail.
two_selected :
    prefetch_experts tensors 2 0 ((1 ∷ 1 ∷ []) ∷ (0 ∷ 0 ∷ []) ∷ []) [] ≡ ([], raise value_error)
unfolding prefetch_experts Prefetcher.select_rows Prefetcher.select_row Prefetcher.sort_by_matrix
    Prefetcher.enqueue_prefetches Dict.get key_discrete ℕ_discrete
two_selected = refl

abbrev made_before : List Request
made_before = enqueue_prefetch 12 0 ∷ []
