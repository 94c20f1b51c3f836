-- ===== src/Experts/Executor/Forecast.antt =====
-- What `dispatch_local` asks to be loaded for the next layer.
use block_lut.Prelude.{
  ℕ, suc, ◌+◌, ◌%◌, ◌<◌, ◌≡◌, refl, ap, some, List, [], ◌∷◌, ◌++◌, map, length, range', min, All,
  arith,
}
use block_lut.Outcome.{ok}
use block_lut.Experts.Predictor.{ExpertPredictor, Update}
use block_lut.Experts.Predictor.Follows.{IsFollowing, update-IsFollowing}
use block_lut.Experts.Predictor.Ranking.{IsRanking, predicted}
use block_lut.Experts.Executor.{
  RouterMask, Event, set_inputs, set_expected_queue, enqueue_expert, submit_prefetch, ops_schedule,
  wait_expert, expert_count, expert_list, enqueue_all, prefetch_all, prefetch_predicted,
  run_experts, schedule, dispatch_local,
}

-- layer_id, expert_id, priority
abbrev pub Submitted : Type 0
Submitted = ℕ × ℕ × ℕ

-- The prefetches that a sequence of calls submits.
abbrev pub submitted : List Event → List Submitted
submitted [] = []
submitted (submit_prefetch l e p ∷ events) = (l, e, p) ∷ submitted events
submitted (set_inputs ∷ events) = submitted events
submitted (ops_schedule ∷ events) = submitted events
submitted (wait_expert ∷ events) = submitted events
submitted (set_expected_queue n ∷ events) = submitted events
submitted (enqueue_expert l e n ∷ events) = submitted events

submitted-enqueue_all :
    (layer : ℕ) (experts counts : List ℕ) (events : List Event)
    → submitted (enqueue_all layer experts counts ++ events) ≡ submitted events
unfolding enqueue_all
submitted-enqueue_all layer [] [] events = refl
submitted-enqueue_all layer [] (n ∷ counts) events = refl
submitted-enqueue_all layer (e ∷ experts) [] events = refl
submitted-enqueue_all layer (e ∷ experts) (n ∷ counts) events =
    submitted-enqueue_all layer experts counts events

-- The requests are for these experts of one layer, their priorities count from a number on.
abbrev pub IsNumbered : ℕ → ℕ → List ℕ → List Submitted → Type 0
IsNumbered layer first experts requests =
    (map (λ (r : Submitted). r.1) requests ≡ experts)
    × (map (λ (r : Submitted). r.2) requests ≡ range' first (length requests))
    × All (λ (r : Submitted). r.0 ≡ layer) requests

prefetch_all-IsNumbered :
    (layer first : ℕ) (experts : List ℕ)
    → IsNumbered layer first experts (submitted (prefetch_all layer first experts))
unfolding prefetch_all
prefetch_all-IsNumbered layer first [] = (refl, refl, tt)
prefetch_all-IsNumbered layer first (e ∷ experts) =
    let (named, numbered, of_layer) = prefetch_all-IsNumbered layer (suc first) experts in
    (ap (◌∷◌ e) named, ap (◌∷◌ first) numbered, (refl, of_layer))

-- With a predictor that followed the updates `done` of a model of `n` sparse layers, one of which
-- is dispatched: the predictor follows the experts of this mask next, and what is submitted for
-- prefetching, with the priorities 1, 2, ..., is the prediction for the layer that comes next, in
-- which the experts of this mask already count.
pub dispatch_local-prefetch :
    (n topk window num_expert layer : ℕ) (mask : RouterMask) (done : List Update)
    (p : ExpertPredictor)
    → layer < n
    → IsFollowing n topk window done p
    → (p' : ExpertPredictor) × ((dispatch_local num_expert mask layer (some p)).1 ≡ ok (some p'))
      × IsFollowing n topk window
          (done ++ ((layer, expert_list 0 (expert_count num_expert mask)) ∷ []))
          p'
      × (picked rest : List (ℕ × ℕ)) × IsNumbered
          ((layer + 1) % n)
          1
          (map (λ (item : ℕ × ℕ). item.0) picked)
          (submitted (dispatch_local num_expert mask layer (some p)).0)
      × IsRanking window
          ((layer + 1) % n)
          (done ++ ((layer, expert_list 0 (expert_count num_expert mask)) ∷ []))
          (picked ++ rest)
      × (length picked ≡ min topk (length (picked ++ rest)))
unfolding dispatch_local schedule
dispatch_local-prefetch n topk window num_expert layer mask done p h f =
    let counts = expert_count num_expert mask in
    let experts = expert_list 0 counts in
    let (p', updated, f') = update-IsFollowing n topk window (layer, experts) done p h f in
    let (picked, rest, made, ranking, size) =
      predicted n topk window layer (done ++ ((layer, experts) ∷ [])) p' (omega arith) f' in
    (
      p',
      rw (updated, run_experts, made, prefetch_predicted) refl,
      f',
      picked,
      rest,
      rw (submitted-enqueue_all, updated, run_experts, made, prefetch_predicted)
          (prefetch_all-IsNumbered ((layer + 1) % n) 1 (map (λ (item : ℕ × ℕ). item.0) picked)),
      ranking,
      size,
    )
