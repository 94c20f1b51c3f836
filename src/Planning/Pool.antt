-- ===== src/Planning/Pool.antt =====
-- `CachePoolPlanningSimu`: the search for the share of the memory that holds experts in full. The
-- memory of the device is an argument; `inf` as the least delay so far is `none`, which every
-- delay is less than. The minimum that the loop keeps decides only whether there is one.
pub mod Runs
pub mod Found
pub mod Chosen
use block_lut.Prelude.{
  ℕ, zero, suc, ◌+◌, ◌-◌, ◌*◌, ◌≤◌, Bool, true, false, not, ◌&&◌, Option, none, some, List, [], ◌∷◌,
  ◌++◌, map, length, take, drop, get_or, replicate, range', ltb, leb, ◌==◌, if◌then◌else◌,
}
use block_lut.Outcome.{Result, ok, require, index_error, zero_division, ◌>>=◌, ◌>>◌}
use block_lut.Planning.Scalars.{Arithmetic}
use block_lut.Planning.Distribution.{calculate_prob}
use block_lut.Planning.Delay.{Estimates, Costs, divisor, delay_simu}

pub record Pool (A : Type 0) : Type 0 where
  pub costs : Costs A
  pub k : ℕ
  pub num_experts : ℕ
  pub num_sparse_layers : ℕ
  pub num_elements_per_tensor : ℕ
  -- `device_memory_ratio * total_memory`
  pub memory : A
  pub all_probs : List A
  pub step_size : A

-- What the loop has found.
pub record Search (A : Type 0) : Type 0 where
  pub feasible : Bool
  pub ratio_list : List A
  pub simu_delay_list : List A
  pub min_delay : Option A

module _ {A : Type 0} (f : Estimates A) where
  open f use {arithmetic, count, div, less, same, int}
  open arithmetic use {add, mul, sub}

  -- How often a key is counted.
  unfoldable pub occurs : A → List A → ℕ
  occurs p [] = 0
  occurs p (q ∷ qs) = (if same p q then 1 else 0) + occurs p qs

  -- `(Counter(all_probs) - Counter(in_pool_probs)).elements()`, from the keys that are left on
  unfoldable pub elements : List A → List A → List A → List A → List A
  unfolding occurs
  elements all_probs in_pool seen [] = []
  elements all_probs in_pool seen (p ∷ keys) =
      let left = if ltb 0 (occurs p seen) then 0 else occurs p all_probs - occurs p in_pool in
      replicate left p ++ elements all_probs in_pool (p ∷ seen) keys

  unfoldable pub rest_probs : List A → List A → List A
  unfolding elements
  rest_probs all_probs in_pool = elements all_probs in_pool [] all_probs

  unfoldable pub add_cells : List A → List A → List A
  add_cells [] ys = ys
  add_cells (x ∷ xs) [] = x ∷ xs
  add_cells (x ∷ xs) (y ∷ ys) = add x y ∷ add_cells xs ys

  -- `np.convolve`
  unfoldable pub convolve : List A → List A → List A
  unfolding add_cells
  convolve [] ys = []
  convolve (x ∷ xs) ys = add_cells (map (mul x) ys) (arithmetic.zero ∷ convolve xs ys)

  module _ (p : Pool A) where
    -- `total_mem`, `sm_slot_size` and `full_slot_size`
    unfoldable pub total_mem : A
    total_mem = div p.memory (count p.num_sparse_layers)

    unfoldable pub sm_slot_size : ℕ
    sm_slot_size = p.costs.tensors_per_expert * p.num_elements_per_tensor

    unfoldable pub full_slot_size : ℕ
    unfolding sm_slot_size
    full_slot_size = sm_slot_size * 2

    unfoldable pub full_cache_size : A → ℕ
    unfolding total_mem full_slot_size
    full_cache_size ratio = int (div (mul ratio total_mem) (count full_slot_size))

    unfoldable pub sm_cache_size : A → ℕ
    unfolding total_mem sm_slot_size
    sm_cache_size ratio = int (div (mul (sub arithmetic.one ratio) total_mem) (count sm_slot_size))

    -- The two tests that let the loop go on with a ratio.
    unfoldable pub fits : A → Bool
    unfolding full_cache_size sm_cache_size
    fits ratio =
        let full = full_cache_size ratio in
        let sm = sm_cache_size ratio in
        leb (full + sm) p.num_experts
        && (leb p.num_experts (full * p.num_sparse_layers)
            && leb p.num_experts (sm * p.num_sparse_layers))

    -- The inner loop, over `sm_hit`.
    unfoldable pub add_sm_hits : List A → List A → List A → A → ℕ → List ℕ → A → Result A
    unfolding delay_simu
    add_sm_hits full sm rest total full_hit [] avg = ok avg
    add_sm_hits full sm rest total full_hit (sm_hit ∷ hits) avg =
        elim (ltb p.k (full_hit + sm_hit)) [
          | true ↦ add_sm_hits full sm rest total full_hit hits avg
          | false ↦
              let r = p.k - (full_hit + sm_hit) in
              elim (leb (length rest) r) [
                | true ↦ add_sm_hits full sm rest total full_hit hits avg
                | false ↦ delay_simu f p.costs p.k full_hit sm_hit >>= λ delay.
                    let cell : List A → ℕ → A = λ cells i. get_or cells i arithmetic.zero in
                    let prob =
                      div (mul (mul (cell full full_hit) (cell sm sm_hit)) (cell rest r)) total in
                    add_sm_hits full sm rest total full_hit hits (add avg (mul prob delay))
              ]
        ]

    unfoldable pub add_full_hits : List A → List A → List A → A → List ℕ → A → Result A
    unfolding add_sm_hits
    add_full_hits full sm rest total [] avg = ok avg
    add_full_hits full sm rest total (full_hit ∷ hits) avg =
        add_sm_hits full sm rest total full_hit (range' 0 (length sm)) avg
        >>= add_full_hits full sm rest total hits

    -- The expected delay, unless `k` hits have no probability, from the three distributions.
    unfoldable pub average_of : List A → List A → List A → Result (Option A)
    unfolding convolve add_full_hits
    average_of full sm rest =
        let p_total_k = get_or (convolve (convolve full sm) rest) p.k arithmetic.zero in
        if not (less arithmetic.zero p_total_k)
        then ok none
        else (add_full_hits full sm rest p_total_k (range' 0 (length full)) arithmetic.zero
            >>= λ avg. ok (some avg))

    -- The expected delay of a ratio. More slots than probabilities are an IndexError.
    unfoldable pub average_delay : A → Result (Option A)
    unfolding full_cache_size sm_cache_size rest_probs average_of calculate_prob
    average_delay ratio = do
      let full_size = full_cache_size ratio
      let sm_size = sm_cache_size ratio
      require (leb (full_size + sm_size) (length p.all_probs)) index_error
      let p_full = take full_size p.all_probs
      let p_sm = take sm_size (drop full_size p.all_probs)
      average_of (calculate_prob arithmetic p_full) (calculate_prob arithmetic p_sm)
          (calculate_prob arithmetic (rest_probs p.all_probs (p_full ++ p_sm)))

    -- `avgDelay < minAvgDelay and ratio_full >= 0.3`
    unfoldable pub improves : A → A → Option A → Bool
    improves ratio avg none = not (less ratio f.three_tenths)
    improves ratio avg (some least) = less avg least && not (less ratio f.three_tenths)

    -- The end of the loop's body, for a ratio that fits.
    unfoldable pub add_delay : A → Option A → Search A → Search A
    unfolding improves
    add_delay ratio none s = record s { feasible = true }
    add_delay ratio (some avg) s = record {
      feasible = true;
      ratio_list = s.ratio_list ++ ratio ∷ [];
      simu_delay_list = s.simu_delay_list ++ avg ∷ [];
      min_delay = if improves ratio avg s.min_delay then some avg else s.min_delay;
    }

    -- The body of the loop over the ratios.
    unfoldable pub try_ratio : A → Search A → Result (Search A)
    unfolding fits average_delay add_delay
    try_ratio ratio s = elim (fits ratio) [
      | false ↦ ok s
      | true ↦ average_delay ratio >>= λ delay. ok (add_delay ratio delay s)
    ]

    unfoldable pub try_ratios : List A → Search A → Result (Search A)
    unfolding try_ratio
    try_ratios [] s = ok s
    try_ratios (ratio ∷ ratios) s = try_ratio ratio s >>= try_ratios ratios

    -- `[i * step_size for i in range(1, num_steps, 1)]`
    unfoldable pub ratio_full_cache_list : List A
    ratio_full_cache_list =
        map (λ i. mul (count i) p.step_size) (range' 1 (int (div arithmetic.one p.step_size) - 1))

    -- The ratio of the least smoothed delay.
    unfoldable pub best_ratio : Search A → A
    best_ratio s = elim s.min_delay [
      | none ↦ sub arithmetic.one p.step_size
      | some _ ↦ get_or s.ratio_list (f.idxmin (f.smooth s.simu_delay_list)) arithmetic.zero
    ]

    unfoldable pub cache_pool_planning_simu : Result (A × Bool)
    unfolding sm_slot_size try_ratios ratio_full_cache_list best_ratio
    cache_pool_planning_simu = do
      layers ← divisor p.num_sparse_layers
      size ← divisor sm_slot_size
      require (not (f.is_zero p.step_size)) zero_division
      s ←
          try_ratios ratio_full_cache_list
            (record { feasible = false; ratio_list = []; simu_delay_list = []; min_delay = none })
      ok (best_ratio s, s.feasible)
