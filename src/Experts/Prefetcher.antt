-- ===== src/Experts/Prefetcher.antt =====
-- `ExpertPrefetcher` of experts/expert_prefetcher.py: the requests that it makes of the engine,
-- after those that were made before. A method that raises keeps what it has requested.
pub mod Requests
use block_lut.Prelude.{
  ℕ, zero, suc, ◌-◌, none, some, List, [], ◌∷◌, ◌++◌, map, length, get_elem?, range', ltb, leb,
  if◌then◌else◌,
}
use block_lut.Outcome.{Result, ok, raise, index_error, key_error, value_error, ◌>>=◌}
use block_lut.Dict
use block_lut.Dict.{Dict}
use block_lut.Progressive.{Key, key_discrete}

pub data Request : Type 0 where
  -- tensor_id, gpu_id
  enqueue_prefetch : ℕ → ℕ → Request
  replace_cache_candidates : List ℕ → Request

abbrev pub ExpertTensorMap : Type 0
ExpertTensorMap = Dict Key ℕ

abbrev pub tensor_id : ExpertTensorMap → Key → Result ℕ
tensor_id expert_tensor_map key = elim (Dict.get key_discrete key expert_tensor_map) [
  | none ↦ raise key_error
  | some id ↦ ok id
]

-- The loop that collects the ids.
unfoldable pub tensor_ids : ExpertTensorMap → ℕ → List ℕ → Result (List ℕ)
tensor_ids expert_tensor_map layer_id [] = ok []
tensor_ids expert_tensor_map layer_id (j ∷ expert_list) = do
  id ← tensor_id expert_tensor_map (layer_id, j)
  ids ← tensor_ids expert_tensor_map layer_id expert_list
  ok (id ∷ ids)

-- The requests that have been made when a method returns or raises, and how it ends.
abbrev pub Requesting : Type 0
Requesting = List Request × Result (Unit {0})

-- `self.lut_moe_engine.enqueue_prefetch(tensor_id, 0)`, for each id, after the requests so far.
unfoldable pub enqueue_prefetches : List Request → List ℕ → Requesting
enqueue_prefetches requests [] = (requests, ok tt)
enqueue_prefetches requests (id ∷ ids) =
    enqueue_prefetches (requests ++ enqueue_prefetch id 0 ∷ []) ids

unfoldable pub prefetch_experts_list : ExpertTensorMap → ℕ → List ℕ → List Request → Requesting
unfolding tensor_ids enqueue_prefetches
prefetch_experts_list expert_tensor_map layer_id expert_list requests =
    elim (tensor_ids expert_tensor_map layer_id expert_list) [
      | raise e ↦ (requests, raise e)
      | ok ids ↦ enqueue_prefetches requests ids
    ]

unfoldable pub fetch_experts_lock_cache : ExpertTensorMap → ℕ → List ℕ → List Request → Requesting
unfolding tensor_ids
fetch_experts_lock_cache expert_tensor_map layer_id expert_list requests =
    elim (tensor_ids expert_tensor_map layer_id expert_list) [
      | raise e ↦ (requests, raise e)
      | ok ids ↦ (requests ++ replace_cache_candidates ids ∷ [], ok tt)
    ]

-- `expert_matrix[i, j]`
abbrev pub element : List (List ℕ) → ℕ → ℕ → Result ℕ
element expert_matrix i j = elim (get_elem? expert_matrix i) [
  | none ↦ raise index_error
  | some row ↦ elim (get_elem? row j) [ none ↦ raise index_error | some x ↦ ok x ]
]

-- One pass of the inner loop, over the columns that are left.
unfoldable pub select_row : ExpertTensorMap → List (List ℕ) → ℕ → List ℕ → List ℕ → Result (List ℕ)
select_row expert_tensor_map expert_matrix i selected [] = ok selected
select_row expert_tensor_map expert_matrix i selected (j ∷ columns) = do
  x ← element expert_matrix i j
  more ←
      (if ltb 0 x
        then (tensor_id expert_tensor_map (i, j) >>= λ id. ok (selected ++ (id ∷ [])))
        else ok selected)
  select_row expert_tensor_map expert_matrix i more columns

unfoldable pub select_rows : ExpertTensorMap → List (List ℕ) → ℕ → List ℕ → List ℕ → Result (List ℕ)
unfolding select_row
select_rows expert_tensor_map expert_matrix num_layers selected [] = ok selected
select_rows expert_tensor_map expert_matrix num_layers selected (i ∷ rows) = do
  more ← select_row expert_tensor_map expert_matrix i selected (range' 0 num_layers)
  select_rows expert_tensor_map expert_matrix num_layers more rows

-- The key of the sort is the whole matrix. Two of them are compared as arrays, of which no truth
-- value can be taken, so that the sort raises as soon as there are two items.
unfoldable pub sort_by_matrix : List ℕ → Result (List ℕ)
sort_by_matrix ids = if ltb 1 (length ids) then raise value_error else ok ids

-- The assertion that the ids are distinct is met by a list of at most one.
unfoldable pub prefetch_experts :
    ExpertTensorMap → ℕ → ℕ → List (List ℕ) → List Request → Requesting
unfolding select_rows sort_by_matrix enqueue_prefetches
prefetch_experts expert_tensor_map num_layers layer_id expert_matrix requests =
    elim (select_rows expert_tensor_map expert_matrix num_layers []
        (range' layer_id (num_layers - layer_id))
      >>= sort_by_matrix) [
        | raise e ↦ (requests, raise e)
        | ok ids ↦ enqueue_prefetches requests ids
      ]
