-- ===== src/Tests/Pools.antt =====
-- The search for the shares of the memory, in fixed point with two decimals.
use block_lut.Prelude.{
  ℕ, get_or, replicate, ◌+◌, ◌-◌, ◌*◌, ◌/◌, ◌≤◌, ◌<◌, ◌≡◌, refl, ◌⊎◌, true, false, List, [], ◌∷◌,
  length, All, ltb, ◌==◌, arith,
}
use block_lut.Outcome.{ok, Returns}
use block_lut.Planning.Delay.{Estimates}
use block_lut.Planning.Pool.{Pool, ratio_full_cache_list, cache_pool_planning_simu, sm_slot_size}
use block_lut.Planning.Pool.Runs.{IsProper}
use block_lut.Planning.Pool.Found.{any_fits, delays, any_large}
use block_lut.Planning.Pool.Chosen.{IsSeries, IsBest, cache_pool_planning_simu-IsBest}
use block_lut.Tests.Quantizers.{least, least-lt, least-le}

unfoldable pub hundredths : Estimates ℕ
unfolding least
hundredths = record {
  arithmetic = record { zero = 0; one = 100; add = ◌+◌; mul = λ x y. x * y / 100; sub = ◌-◌ };
  count = λ n. 100 * n;
  div = λ x y. x * 100 / y;
  less = ltb;
  is_zero = λ x. x == 0;
  three_tenths = 30;
  int = λ x. x / 100;
  same = ◌==◌;
  smooth = λ xs. xs;
  idxmin = least;
}

-- Room for 4 slots of a compressed expert in each of 4 layers.
abbrev pool : Pool ℕ
pool = record {
  costs = record {
    decompression_delay = 300;
    sm_io_delay = 100;
    compression_ratio = 50;
    num_file_chunks = 2;
    tensors_per_expert = 1;
    compute_pool_size = 2;
  };
  k = 2;
  num_experts = 4;
  num_sparse_layers = 4;
  num_elements_per_tensor = 1;
  memory = 1600;
  all_probs = 60 ∷ 50 ∷ 50 ∷ 40 ∷ [];
  step_size = 10;
}

hundredths-IsSeries : IsSeries hundredths ◌≤◌
unfolding hundredths
hundredths-IsSeries = record { length-smooth = λ xs. refl; idxmin-lt = within; idxmin-Le = below }
  where
    within : (xs : List ℕ) → 0 < length xs → least xs < length xs
    within [] h = absurd (omega arith)
    within (x ∷ xs) h = least-lt x xs

    below : (xs : List ℕ) → All (λ y. get_or xs (least xs) 0 ≤ y) xs
    below [] = tt
    below (x ∷ xs) = least-le x xs

pool-IsProper : IsProper hundredths pool
unfolding sm_slot_size hundredths
pool-IsProper = record {
  some_chunk = omega arith;
  some_thread = omega arith;
  some_layer = omega arith;
  some_slot = omega arith;
  some_step = refl;
  known = omega arith;
}

cache_pool_planning_simu-IsBest_example :
    let found = delays hundredths pool (ratio_full_cache_list hundredths pool) in
    Returns
      (λ r.
        (r.1 ≡ any_fits hundredths pool (ratio_full_cache_list hundredths pool))
        × (((any_large hundredths pool found ≡ false) × (r.0 ≡ 100 - 10))
            ⊎ ((any_large hundredths pool found ≡ true) × IsBest hundredths pool ◌≤◌ found (r.0))))
      (cache_pool_planning_simu hundredths pool)
unfolding hundredths
cache_pool_planning_simu-IsBest_example =
    cache_pool_planning_simu-IsBest hundredths pool pool-IsProper hundredths-IsSeries

half : cache_pool_planning_simu hundredths pool ≡ ok (50, true)
unfolding cache_pool_planning_simu hundredths
half = refl

-- Without room for an expert of each kind in every layer nothing fits.
no_room : cache_pool_planning_simu hundredths (record pool { memory = 300 }) ≡ ok (90, false)
unfolding cache_pool_planning_simu hundredths
no_room = refl

-- Where compressed slots cost nothing, no ratio has a delay, and the first that fits is below 0.3.
abbrev free_pool : Pool ℕ
free_pool = record {
  costs = record {
    decompression_delay = 0;
    sm_io_delay = 100;
    compression_ratio = 0;
    num_file_chunks = 2;
    tensors_per_expert = 1;
    compute_pool_size = 2;
  };
  k = 2;
  num_experts = 12;
  num_sparse_layers = 12;
  num_elements_per_tensor = 1;
  memory = 12000;
  all_probs = 100 ∷ 100 ∷ replicate 10 0;
  step_size = 10;
}

below_threshold : cache_pool_planning_simu hundredths free_pool ≡ ok (20, true)
unfolding cache_pool_planning_simu hundredths
below_threshold = refl
