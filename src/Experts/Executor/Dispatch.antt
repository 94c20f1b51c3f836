-- ===== src/Experts/Executor/Dispatch.antt =====
-- What `dispatch_local` asks of the dispatcher, for any mask, with a predictor or without.
use native.Mathlib.Decide.{ℕ_discrete}
use block_lut.Prelude.{
  ℕ, zero, suc, ◌+◌, ◌<◌, ◌≤◌, ◌≡◌, refl, ap, ◌∙◌, subst, Option, none, some, List, [], ◌∷◌, ◌++◌,
  map, length, range', sum, All, arith, tests, ltb, if◌then◌else◌, Bool-cases, inl, inr,
}
use block_lut.Outcome.{Result, ok, raise}
use block_lut.Counter.Laws.{occurrences}
use block_lut.Experts.Predictor.{ExpertPredictor, update, predict_next_layer}
use block_lut.Experts.Executor.{
  RouterMask, Event, set_inputs, set_expected_queue, enqueue_expert, submit_prefetch, ops_schedule,
  wait_expert, column, expert_count, expert_list, token_counts, enqueue_all, prefetch_all,
  prefetch_predicted, run_experts, schedule, dispatch_local,
}
use block_lut.Experts.Executor.Tokens.{sum-column}

-- layer_id, expert_id, num_token_reqs
abbrev pub Enqueued : Type 0
Enqueued = ℕ × ℕ × ℕ

-- The experts that a sequence of calls enqueues.
abbrev pub enqueued : List Event → List Enqueued
enqueued [] = []
enqueued (enqueue_expert l e n ∷ events) = (l, e, n) ∷ enqueued events
enqueued (set_inputs ∷ events) = enqueued events
enqueued (ops_schedule ∷ events) = enqueued events
enqueued (wait_expert ∷ events) = enqueued events
enqueued (set_expected_queue n ∷ events) = enqueued events
enqueued (submit_prefetch l e p ∷ events) = enqueued events

module _ (layer : ℕ) where
  active : ℕ → List ℕ → List Enqueued
  active i [] = []
  active i (n ∷ counts) =
      let rest = active (suc i) counts in if ltb 0 n then (layer, i, n) ∷ rest else rest

  enqueued-enqueue_all :
      (i : ℕ) (counts : List ℕ) (events : List Event)
      → enqueued events ≡ []
      → enqueued (enqueue_all layer (expert_list i counts) (token_counts counts) ++ events)
        ≡ active i counts
  unfolding active expert_list token_counts enqueue_all
  enqueued-enqueue_all i [] events h = h
  enqueued-enqueue_all i (n ∷ counts) events h = elim (Bool-cases (ltb 0 n)) [
    | inl t ↦ rw t (ap (◌∷◌ (layer, i, n)) (enqueued-enqueue_all (suc i) counts events h))
    | inr t ↦ rw t (enqueued-enqueue_all (suc i) counts events h)
  ]

  length-active :
      (i : ℕ) (counts : List ℕ) → length (expert_list i counts) ≡ length (active i counts)
  unfolding active expert_list
  length-active i [] = refl
  length-active i (n ∷ counts) = ground (arith, length-active (suc i) counts)

  sum-active :
      (i : ℕ) (counts : List ℕ) → sum (map (λ (q : Enqueued). q.2) (active i counts)) ≡ sum counts
  unfolding active
  sum-active i [] = refl
  sum-active i (n ∷ counts) = ground (arith, sum-active (suc i) counts)

  module _ (f : ℕ → ℕ) where
    occurrences-active_before :
        (e i k : ℕ)
        → e < i
        → occurrences e (map (λ (q : Enqueued). q.1) (active i (map f (range' i k)))) ≡ 0
    unfolding active
    occurrences-active_before e i zero h = refl
    occurrences-active_before e i (suc k) h =
        ground (arith, occurrences-active_before e (suc i) k (omega arith))

    occurrences-active :
        (e i k : ℕ)
        → i ≤ e
        → e < i + k
        → occurrences e (map (λ (q : Enqueued). q.1) (active i (map f (range' i k))))
          ≡ (if ltb 0 (f e) then 1 else 0)
    unfolding active
    occurrences-active e i zero h l = absurd (omega arith)
    occurrences-active e i (suc k) h l = elim (ℕ_discrete i e) [
      | yes p ↦
          subst
            (λ j.
              occurrences j (map (λ (q : Enqueued). q.1) (active i (map f (range' i (suc k)))))
              ≡ (if ltb 0 (f j) then 1 else 0))
            p (ground (arith, occurrences-active_before i (suc i) k (omega arith)))
      | no p ↦ ground (arith, occurrences-active e (suc i) k (ground arith) (omega arith))
    ]

    All-active :
        (b i k : ℕ)
        → i + k ≤ b
        → All
            (λ (q : Enqueued). (q.0 ≡ layer) × (q.1 < b) × (q.2 ≡ f q.1) × (0 < q.2))
            (active i (map f (range' i k)))
    unfolding active
    All-active b i zero h = tt
    All-active b i (suc k) h = elim (Bool-cases (ltb 0 (f i))) [
      | inl t ↦ rw t ((refl, omega arith, refl, omega tests), All-active b (suc i) k (omega arith))
      | inr t ↦ rw t (All-active b (suc i) k (omega arith))
    ]

enqueued-prefetch_all : (l p : ℕ) (experts : List ℕ) → enqueued (prefetch_all l p experts) ≡ []
unfolding prefetch_all
enqueued-prefetch_all l p [] = refl
enqueued-prefetch_all l p (e ∷ experts) = enqueued-prefetch_all l (suc p) experts

enqueued-prefetch_predicted :
    (p : ExpertPredictor) (r : Result (ℕ × List ℕ)) → enqueued (prefetch_predicted p r).0 ≡ []
unfolding prefetch_predicted
enqueued-prefetch_predicted p (raise e) = refl
enqueued-prefetch_predicted p (ok (next, predicted)) = enqueued-prefetch_all next 1 predicted

enqueued-run_experts :
    (layer : ℕ) (r : Result ExpertPredictor) → enqueued (run_experts layer r).0 ≡ []
unfolding run_experts
enqueued-run_experts layer (raise e) = refl
enqueued-run_experts layer (ok p) = enqueued-prefetch_predicted p (predict_next_layer layer p)

enqueued-schedule :
    (layer : ℕ) (experts : List ℕ) (p : Option ExpertPredictor)
    → enqueued (schedule layer experts p).0 ≡ []
unfolding schedule
enqueued-schedule layer experts none = refl
enqueued-schedule layer experts (some p) = enqueued-run_experts layer (update (layer, experts) p)

-- The calls of a mask in which every row has a column for each expert, whatever becomes of the
-- predictor: after `set_inputs`, the queue is told to expect as many experts as are enqueued
-- later; each of those is enqueued for the layer, with its positive number of tokens; every expert
-- is enqueued once, or not at all if no token is routed to it; and the tokens of all enqueued
-- experts add up to those of the mask.
pub dispatch_local-expected_queue :
    (num_expert layer : ℕ) (mask : RouterMask) (p : Option ExpertPredictor)
    → All (λ row. length row ≡ num_expert) mask
    → (rest : List Event) × ((dispatch_local num_expert mask layer p).0
        ≡ set_inputs ∷ set_expected_queue (length (enqueued rest)) ∷ rest)
      × All
          (λ (q : Enqueued).
            (q.0 ≡ layer) × (q.1 < num_expert) × (q.2 ≡ column mask q.1) × (0 < q.2))
          (enqueued rest)
      × ((e : ℕ)
          → e < num_expert
          → occurrences e (map (λ (q : Enqueued). q.1) (enqueued rest))
            ≡ (if ltb 0 (column mask e) then 1 else 0))
      × (sum (map (λ (q : Enqueued). q.2) (enqueued rest)) ≡ sum (map sum mask))
unfolding dispatch_local expert_count
dispatch_local-expected_queue num_expert layer mask p h =
    let counts = map (column mask) (range' 0 num_expert) in
    let experts = expert_list 0 counts in
    let rest = enqueue_all layer experts (token_counts counts) ++ (schedule layer experts p).0 in
    let all : enqueued rest ≡ active layer 0 counts =
      enqueued-enqueue_all layer 0 counts _ (enqueued-schedule layer experts p) in
    (
      rest,
      rw all (ap (λ n. set_inputs ∷ set_expected_queue n ∷ rest) (length-active layer 0 counts)),
      rw all (All-active layer (column mask) num_expert 0 num_expert (omega arith)),
      λ e l.
          rw all
            (occurrences-active layer (column mask) e 0 num_expert (omega arith) (omega arith)),
      rw all (sum-active layer 0 counts ∙ sum-column num_expert mask h),
    )
