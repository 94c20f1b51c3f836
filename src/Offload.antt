-- ===== src/Offload.antt =====
-- The loading of a model in runtime/model_offload.py: `lut_moe_from_pretrained` from the
-- checkpoint files to the map from names to tensor ids, with `lut_moe_offload_to_disk` and
-- `lut_moe_batch_offload_to_disk`. `T` is the type of tensors and `S` of what
-- `split_and_extract_from_tensor` gives; the engine's calls are a list of events. The four lists
-- of a batch, which grow and are emptied together, are one list.
pub mod Names
pub mod Written
pub mod Batches
pub mod Files
pub mod Naming
pub mod Topology
use block_lut.Prelude.{
  ℕ, zero, suc, ◌+◌, ◌/◌, Bool, true, false, not, ◌&&◌, ◌||◌, Option, none, some, String, List, [],
  ◌∷◌, ◌++◌, length, ◌==◌, ltb, if◌then◌else◌, contains, string_discrete,
}
use block_lut.Outcome.{Result, ok, raise, zero_division, file_not_found, ◌>>=◌}
use block_lut.Dict
use block_lut.Dict.{Dict}

-- `"expert" in k and "shared_expert" not in k`
unfoldable pub is_sparse : String → Bool
is_sparse k = contains k "expert" && not (contains k "shared_expert")

abbrev pub NameIdMap : Type 0
NameIdMap = Dict String ℕ

-- `int(num_compute_threads / num_file_chunks)`
unfoldable pub max_batch_size : ℕ → ℕ → Result ℕ
max_batch_size num_compute_threads num_file_chunks =
    if num_file_chunks == 0 then raise zero_division else ok (num_compute_threads / num_file_chunks)

-- A tensor with its id and its parts.
pub record Part (T S : Type 0) : Type 0 where
  pub tensor_id : ℕ
  pub tensor : T
  pub parts : S

pub data OffloadEvent (T S : Type 0) : Type 0 where
  offload : Part T S → Bool → OffloadEvent T S
  batch_offload : List (Part T S) → OffloadEvent T S

pub record Loader (T S : Type 0) : Type 0 where
  pub name_id_map : NameIdMap
  pub param_id : ℕ
  pub events : List (OffloadEvent T S)
  pub batch : List (Part T S)
  pub batch_size : ℕ

module _ {T S : Type 0} where
  -- Before the first file.
  unfoldable pub start : Loader T S
  start = record { name_id_map = []; param_id = 0; events = []; batch = []; batch_size = 0 }

  -- `self.name_id_map[k] = self._generate_param_id()`
  unfoldable pub generate_param_id : String → Loader T S → ℕ × Loader T S
  generate_param_id k s = (
    s.param_id,
    record s {
      name_id_map = Dict.put string_discrete k s.param_id s.name_id_map;
      param_id = s.param_id + 1;
    },
  )

  unfoldable pub lut_moe_batch_offload_to_disk :
      List (Part T S) → List (OffloadEvent T S) → List (OffloadEvent T S)
  lut_moe_batch_offload_to_disk [] events = events
  lut_moe_batch_offload_to_disk (p ∷ ps) events = events ++ (batch_offload (p ∷ ps) ∷ [])

  -- The offload of the batch, and the reset of its lists and its size.
  unfoldable pub flush : Loader T S → Loader T S
  unfolding lut_moe_batch_offload_to_disk
  flush s = record s {
    events = lut_moe_batch_offload_to_disk s.batch s.events;
    batch = [];
    batch_size = 0;
  }

  -- `if len(tensor_id_list) > 0`
  unfoldable pub flush_rest : Loader T S → Loader T S
  unfolding flush
  flush_rest s = if ltb 0 (length s.batch) then flush s else s

  -- `is_tensor_offloaded` is the engine's answer.
  unfoldable pub lut_moe_offload_to_disk :
      (ℕ → Bool) → String → T → S → Bool → Loader T S → Loader T S
  unfolding generate_param_id
  lut_moe_offload_to_disk is_tensor_offloaded k tensor parts sparse s =
      let (id, s1) = generate_param_id k s in
      let part : Part T S = record { tensor_id = id; tensor = tensor; parts = parts } in
      if is_tensor_offloaded id
      then s1
      else record s1 { events = s1.events ++ (offload part sparse ∷ []) }

  -- The branches on `is_sparse`.
  unfoldable pub add_tensor : (ℕ → Bool) → String → T → S → Loader T S → Loader T S
  unfolding is_sparse generate_param_id flush_rest lut_moe_offload_to_disk
  add_tensor is_tensor_offloaded k tensor parts s =
      if is_sparse k
      then (let (id, s1) = generate_param_id k s in
          record s1 {
            batch = s1.batch ++ (record { tensor_id = id; tensor = tensor; parts = parts } ∷ []);
            batch_size = s1.batch_size + 1;
          })
      else lut_moe_offload_to_disk is_tensor_offloaded k tensor parts (is_sparse k) (flush_rest s)

  -- `if batch_size == max_batch_size`
  unfoldable pub flush_full : ℕ → Loader T S → Loader T S
  unfolding flush
  flush_full max_size s = if s.batch_size == max_size then flush s else s

  -- The body of the loop over a state dict; `split` is the cast and the split of a tensor.
  unfoldable pub load_tensor :
      (T → T) → (T → Result S) → (ℕ → Bool) → ℕ → String → T → Loader T S → Result (Loader T S)
  unfolding add_tensor flush_full
  load_tensor to_dtype split is_tensor_offloaded max_size k v s = do
    parts ← split (to_dtype v)
    ok (flush_full max_size (add_tensor is_tensor_offloaded k (to_dtype v) parts s))

  unfoldable pub load_tensors :
      (T → T) → (T → Result S) → (ℕ → Bool) → ℕ → Dict String T → Loader T S → Result (Loader T S)
  unfolding load_tensor
  load_tensors to_dtype split is_tensor_offloaded max_size [] s = ok s
  load_tensors to_dtype split is_tensor_offloaded max_size ((k, v) ∷ rest) s = do
    s1 ← load_tensor to_dtype split is_tensor_offloaded max_size k v s
    load_tensors to_dtype split is_tensor_offloaded max_size rest s1

  -- The loop over the checkpoint files, each with its state dict; a file starts with an empty
  -- batch.
  unfoldable pub load_files :
      (T → T)
      → (T → Result S)
      → (ℕ → Bool)
      → ℕ
      → ℕ
      → List (Dict String T)
      → Loader T S
      → Result (Loader T S)
  unfolding load_tensors flush_rest max_batch_size
  load_files to_dtype split is_tensor_offloaded threads chunks [] s = ok s
  load_files to_dtype split is_tensor_offloaded threads chunks (file ∷ files) s = do
    max_size ← max_batch_size threads chunks
    s1 ←
        load_tensors to_dtype split is_tensor_offloaded max_size file
          (record s { batch = []; batch_size = 0 })
    load_files to_dtype split is_tensor_offloaded threads chunks files (flush_rest s1)
