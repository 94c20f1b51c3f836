-- ===== src/Tests/Setup.antt =====
-- The set-up of an engine for nested LUTs, with two entries of a LUT and a trace of one prompt.
use block_lut.Prelude.{
  ℕ, ◌+◌, ◌*◌, ◌/◌, ◌-◌, ◌≡◌, refl, Bool, true, false, List, [], ◌∷◌, length, replicate, sum, ltb,
  leb, ◌==◌, max,
}
use block_lut.Prelude
use block_lut.Dict
use block_lut.Planning.Trace.{Trace}
use block_lut.Planning.Scaling.{Reals}
use block_lut.Planning.Weights.{Arrays}
use block_lut.Planning.Plan.{Planner}
use block_lut.EngineInit.{EngineConfig, set_plan}
use block_lut.Tests.Pools.{hundredths}

abbrev reals : Reals ℕ
reals = record {
  zero = 0;
  tol = 1;
  cap = 99;
  sum = sum;
  mul = λ x y. x * y / 100;
  div = λ x y. x * 100 / y;
  minus_count = λ k c. k - 100 * c;
  is_zero = λ x. x == 0;
  less = ltb;
  at_least = λ x y. leb y x;
}

abbrev arrays : Arrays ℕ
unfolding hundredths
arrays = record {
  arithmetic = hundredths.arithmetic;
  div = λ x y. x * 100 / y;
  tiny = 1;
  is_close = λ xs k. sum xs == 100 * k;
  converged = λ xs ys. true;
  mean = λ xs. 100;
}

abbrev planner : Planner ℕ
unfolding hundredths reals arrays
planner = record { reals = reals; arrays = arrays; estimates = hundredths; nearly_one = 99 }

abbrev config : EngineConfig ℕ
config = record {
  offload_path = "offload/deepseek";
  code_type = "NESTEDLUT";
  caching_algorithm = "PLANNED";
  gpu_pool_ratio = 0;
  device_memory_ratio = 50;
  decompression_delay = 0;
  compression_ratio = 0;
  sm_io_delay = 100;
  batch_size = 1;
  num_compute_threads = 2;
  num_file_chunks = 2;
  expert_topk = 2;
  num_elements_per_expert = 1;
  num_tensors_per_expert = 1;
  num_expert_layers = 4;
  num_experts = 4;
}

abbrev profiled : EngineConfig ℕ
profiled = record config { decompression_delay = 25000; compression_ratio = 50 }

abbrev trace : Trace
trace = ((1 ∷ 1 ∷ 1 ∷ 1 ∷ []) ∷ []) ∷ []

-- A switch model falls back to LFU, whatever the plan.
falls_back :
    (set_plan (50, true) (record config { offload_path = "offload/switch" })).caching_algorithm
    ≡ "LFU"
unfolding set_plan
falls_back = refl
