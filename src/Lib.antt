-- ===== src/Lib.antt =====
-- LUT-MoE keeps the experts of a mixture-of-experts model on disk and in a small GPU cache, with
-- their weights as indices into a lookup table (LUT).
--
-- Files, and the code that they are about (paths from the repository's root):
--
-- - Progressive: `ProgressiveExpertCache` of vllm_lut/progressive_cache.py. Its children hold the
--   invariant (Invariant), the methods that keep it (Access, Evict, Store), the choice of the
--   expert to evict (Lru), any sequence of calls (Runs) and the prediction (Predict).
-- - BitPlane: `pack_bitplanes` of llama-cpp-port/scripts/convert_lut.py, and in Readers what
--   csrc/tensor_engine/tensor_engine.cpp and csrc/kernels/tensor_recover.cu read back.
-- - Split: `split_and_extract_from_tensor` of runtime/model_offload.py, and in Recover the kernel
--   that rebuilds bf16 values.
-- - Experts: Predictor (`ExpertPredictor` of experts/expert_predictor.py), Executor
--   (`dispatch_local` of experts/expert_executor.py, as the calls that it makes) and Prefetcher
--   (`ExpertPrefetcher` of experts/expert_prefetcher.py).
-- - Offload: `lut_moe_from_pretrained` of runtime/model_offload.py up to the map of names, with
--   the methods that write tensors to disk (Batches, Files), the names that the map then holds
--   (Naming) and `get_topology` (Topology).
-- - Architecture: utils/hf_config.py, and `parse_expert_type` of utils/constants.py.
-- - Planning: runtime/cache_planning.py, over abstract numbers (Scalars). `CalculateProb` is
--   Distribution, `ObtainDistFromTrace` is Trace and the start of Plan, `CoverageToWeight` is
--   Weights with its tables in Coverage, `scale_to_k` is Scaling, whose loop has the number of
--   probabilities as fuel, `DelaySimu` is Delay, `CachePoolPlanningSimu` is Pool, and `PlanCache`
--   is Plan.
-- - Quantizer: vllm_lut/quantizer.py. Numbers is the interface to torch, State the object,
--   Kmeans, Nested and Blocks the training, Codes quantization and decompression, Files save and
--   load.
-- - TensorIndex: vllm_lut/read_offload.py. The index of the tensors as bytes, its writers (Writer:
--   `operator<<` of csrc/base/lut_moe_tensor_index.cpp and the format that the reader expects),
--   the end of the loop (Progress), reading back (RoundTrip) and the conversion (Convert). The
--   fuel of the loop is the length of the file, which is enough, as each entry takes bytes.
-- - LutTables: `_load_lut`, `_load_blocklut`, `_load_nested_lut_extras` and the two quantizations
--   of runtime/model_offload.py; Keys is about the order of bf16 bit patterns.
-- - Hooks: `_register_hooks_recursively` of runtime/model_offload.py: which modules get hooks, and
--   the ids of the modules (Numbering).
-- - EngineInit: `LUT_MoEEngine.init` of runtime/model_offload.py from its configuration on, with
--   the profiles of utils/constants.py, LutTables and Planning. Uploads is about its calls.
--   SetupHooks is `setup_lut_moe_hooks` of the same file, with Offload.Topology and Hooks, and
--   SetupHooks/Offloaded the addresses that it leaves for the hooks.
-- - MoeBlock: the forward pass of the MoE blocks of customized/deepseek.py and customized/qwen.py,
--   from the choices of the router on. It calls `dispatch_local` of Experts.Executor, and takes
--   the outputs that csrc/dispatcher/expert_dispatcher.cpp makes of the enqueued experts.
-- - MoeLayer: vllm_lut/moe_layer.py. Wrapper is `LUTMoEExpertWrapper`, which quantizes with
--   Quantizer, Layer the rest of `DeepseekV2MoE_LUT` but its forward pass, and Forward this pass,
--   which tells Progressive of each access. Routing holds what MoeBlock and MoeLayer share, and
--   the weighted sum that both are to compute.
-- - Counter and Dict: Python's `Counter` and `dict`, in insertion order. Outcome: exceptions as
--   values. Prelude: names that all files share. Tests: runs, and the theorems at concrete inputs.
--
-- How code becomes definitions. An object is a record, and a method returns the new record beside
-- its result; where a method raises after it has changed the object, the changed object is
-- returned beside the exception, unless the file's comment leaves it out. A loop over a collection is a recursion on its list; the
-- three `while` loops have as fuel the length of what they consume. Arrays are lists, bytes and
-- bf16 patterns are natural numbers with their wrap-around written out, and out-of-range indices,
-- missing keys and division by zero are the exceptions that Python raises.
--
-- Not modelled: the layers of the network other than the mixture of experts, tensors on devices,
-- CUDA launches, files and the services of torch, numpy, pandas and vLLM beyond the operations
-- named in the files; what the hooks of modules do when they run, which is
-- up to the C++ engine; the patches of `LUT_MoEEngine.__enter__`; the MoE block of
-- customized/switch_transformers.py; the methods that vllm_lut/quant_method.py and
-- vllm_lut/patcher.py put into vLLM; the evaluation scripts, benchmarks and installation helpers.
pub mod Prelude
pub mod Outcome
pub mod Dict
pub mod Counter
pub mod Quantizer
pub mod TensorIndex
pub mod LutTables
pub mod Routing
pub mod MoeLayer
pub mod MoeBlock
pub mod Hooks
pub mod Progressive
pub mod Experts
pub mod BitPlane
pub mod Split
pub mod Offload
pub mod Architecture
pub mod Planning
pub mod EngineInit
pub mod Tests
