-- ===== src/EngineInit.antt =====
-- `LUT_MoEEngine.init` of runtime/model_offload.py, from the configuration that it was given: the
-- tables of utils/constants.py, the LUTs, the plan of the cache, and the calls of the engine in
-- C++. The files of the LUTs and the trace are their contents. Only the fields of the
-- configuration that are read here are modelled.
pub mod Uploads
pub mod SetupHooks
use text.Mathlib.Text.{◌==◌}
use block_lut.Prelude.{
  ℕ, Bool, true, false, not, ◌||◌, String, Option, none, some, List, [], ◌∷◌, ◌++◌, contains,
  string_discrete, if◌then◌else◌,
}
use block_lut.Dict
use block_lut.Dict.{Dict}
use block_lut.Outcome.{Result, ok, raise, key_error, attribute_error, ◌>>=◌}
use block_lut.LutTables.{Floats, load_lut, load_blocklut, load_nested_lut_extras}
use block_lut.Planning.Trace.{Trace}
use block_lut.Planning.Delay.{divisor}
use block_lut.Planning.Pool.{Pool}
use block_lut.Planning.Plan.{Planner, plan_cache}

-- DELAY_PROFILE
abbrev pub delay_profile : Dict String ℕ
delay_profile =
    ("RAW", 500)
    ∷ ("LZ4", 2500)
    ∷ ("LZ4HC", 2500)
    ∷ ("ZSTD", 3600)
    ∷ ("LUT", 500)
    ∷ ("BLOCKLUT", 500)
    ∷ ("NESTEDLUT", 500)
    ∷ []

-- COMPRESSION_RATIO_PROFILE, in hundredths.
abbrev pub compression_ratio_profile : Dict String ℕ
compression_ratio_profile =
    ("RAW", 0)
    ∷ ("LZ4", 40)
    ∷ ("LZ4HC", 40)
    ∷ ("ZSTD", 36)
    ∷ ("LUT", 50)
    ∷ ("BLOCKLUT", 50)
    ∷ ("NESTEDLUT", 50)
    ∷ []

-- `profile[key]`
unfoldable pub profile_of : String → Dict String ℕ → Result ℕ
profile_of key profile = elim (Dict.get string_discrete key profile) [
  | none ↦ raise key_error
  | some v ↦ ok v
]

pub record EngineConfig (A : Type 0) : Type 0 where
  pub offload_path : String
  pub code_type : String
  pub caching_algorithm : String
  pub gpu_pool_ratio : A
  pub device_memory_ratio : A
  pub decompression_delay : A
  pub compression_ratio : A
  pub sm_io_delay : A
  pub batch_size : ℕ
  pub num_compute_threads : ℕ
  pub num_file_chunks : ℕ
  pub expert_topk : ℕ
  pub num_elements_per_expert : ℕ
  pub num_tensors_per_expert : ℕ
  pub num_expert_layers : ℕ
  pub num_experts : ℕ

-- `np.load` of the LUT and of the nested tables; `none` where there is no file.
pub record LutFiles (B : Type 0) : Type 0 where
  pub lut : Option (List B)
  pub mapped64 : Option (List ℕ)
  pub mapped16 : Option (List ℕ)

-- The attributes that the loading sets.
pub record LutState : Type 0 where
  pub lut_uint16 : Option (List ℕ)
  pub nested_lut_mapped64_uint16 : Option (List ℕ)
  pub nested_lut_mapped16_uint16 : Option (List ℕ)

pub data HandleCall (A : Type 0) : Type 0 where
  lut_moe_prefetch_handle : EngineConfig A → HandleCall A
  set_lut_table : List ℕ → HandleCall A
  set_nested_lut_tables : List ℕ → Option (List ℕ) → Option (List ℕ) → HandleCall A

unfoldable pub no_luts : LutState
no_luts = record {
  lut_uint16 = none;
  nested_lut_mapped64_uint16 = none;
  nested_lut_mapped16_uint16 = none;
}

-- `code_type in ("BLOCKLUT", "NESTEDLUT")`
unfoldable pub has_blocks : String → Bool
has_blocks code_type = code_type == "BLOCKLUT" || code_type == "NESTEDLUT"

module _ {B : Type 0} (g : Floats B) where
  unfoldable pub load_basic : String → LutFiles B → LutState → Result LutState
  load_basic code_type files s =
      if code_type == "LUT"
      then (load_lut g files.lut >>= λ l. ok (record s { lut_uint16 = some (l.lut_uint16) }))
      else ok s

  unfoldable pub load_blocks : String → LutFiles B → LutState → Result LutState
  unfolding has_blocks
  load_blocks code_type files s =
      if has_blocks code_type
      then (load_blocklut g files.lut >>= λ l. ok (record s { lut_uint16 = some (l.lut_uint16) }))
      else ok s

  unfoldable pub load_nested : String → LutFiles B → LutState → Result LutState
  load_nested code_type files s =
      if code_type == "NESTEDLUT"
      then (load_nested_lut_extras files.mapped64 files.mapped16 >>= λ (m64, m16). ok (record s {
        nested_lut_mapped64_uint16 = some m64;
        nested_lut_mapped16_uint16 = some m16;
      }))
      else ok s

  unfoldable pub load_luts : String → LutFiles B → Result LutState
  unfolding load_basic load_blocks load_nested no_luts
  load_luts code_type files = do
    basic ← load_basic code_type files no_luts
    blocks ← load_blocks code_type files basic
    load_nested code_type files blocks

module _ {A : Type 0} where
  -- `self.lut_moe_engine.set_lut_table(self.lut_uint16)`; the attribute may be missing.
  unfoldable pub upload_table : Bool → LutState → Result (List (HandleCall A))
  upload_table false s = ok []
  upload_table true s = elim s.lut_uint16 [
    | none ↦ raise attribute_error
    | some table ↦ ok (set_lut_table table ∷ [])
  ]

  unfoldable pub upload_nested : Bool → LutState → Result (List (HandleCall A))
  upload_nested false s = ok []
  upload_nested true s = elim s.lut_uint16 [
    | none ↦ raise attribute_error
    | some table ↦
        ok (
          set_nested_lut_tables table s.nested_lut_mapped64_uint16 s.nested_lut_mapped16_uint16
          ∷ [])
  ]

  -- A plan that is not feasible, or a switch model, falls back to LFU.
  unfoldable pub set_plan : A × Bool → EngineConfig A → EngineConfig A
  set_plan (ratio, feasible) c = record c {
    gpu_pool_ratio = ratio;
    caching_algorithm =
        if not feasible || contains c.offload_path "switch" then "LFU" else c.caching_algorithm;
  }

module _ {A : Type 0} (n : Planner A) where
  open n use {estimates}

  -- The delay and the ratio of the code type.
  unfoldable pub set_profiles : EngineConfig A → Result (EngineConfig A)
  unfolding profile_of divisor
  set_profiles c = do
    delay ← profile_of c.code_type delay_profile
    chunks ← divisor c.num_file_chunks
    ratio ← profile_of c.code_type compression_ratio_profile
    ok (record c {
      decompression_delay = estimates.div (estimates.count delay) (estimates.count chunks);
      compression_ratio = estimates.div (estimates.count ratio) (estimates.count 100);
    })

  -- The arguments of `PlanCache`, which overwrites `k` and the probabilities.
  unfoldable pub pool_of : A → EngineConfig A → Pool A
  pool_of total_memory c = record {
    costs = record {
      decompression_delay = c.decompression_delay;
      sm_io_delay = c.sm_io_delay;
      compression_ratio = c.compression_ratio;
      num_file_chunks = c.num_file_chunks;
      tensors_per_expert = c.num_tensors_per_expert;
      compute_pool_size = c.num_compute_threads;
    };
    k = c.expert_topk;
    num_experts = c.num_experts;
    num_sparse_layers = c.num_expert_layers;
    num_elements_per_tensor = c.num_elements_per_expert;
    memory = estimates.arithmetic.mul c.device_memory_ratio total_memory;
    all_probs = [];
    step_size = estimates.div (estimates.count 1) (estimates.count 100);
  }

  unfoldable pub init :
      {B : Type 0}
      → Floats B
      → A
      → Trace
      → LutFiles B
      → EngineConfig A
      → Result (EngineConfig A × List (HandleCall A))
  unfolding set_profiles load_luts plan_cache pool_of set_plan upload_table upload_nested has_blocks
  init g total_memory trace files c = do
    profiled ← set_profiles c
    luts ← load_luts g profiled.code_type files
    plan ←
        plan_cache n trace profiled.batch_size profiled.expert_topk (pool_of total_memory profiled)
    let planned = set_plan plan profiled
    basic ← upload_table (planned.code_type == "LUT") luts
    blocks ← upload_table (has_blocks planned.code_type) luts
    nested ← upload_nested (planned.code_type == "NESTEDLUT") luts
    ok (planned, lut_moe_prefetch_handle planned ∷ basic ++ blocks ++ nested)
