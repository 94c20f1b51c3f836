-- ===== src/TensorIndex/Convert.antt =====
-- `read_param_data` and `convert_offload` of vllm_lut/read_offload.py. What torch does with a
-- buffer and with a shape is a parameter; a file is its bytes.
pub mod Zeros
use native.Mathlib.Decide.{ℕ_discrete}
use block_lut.Prelude.{
  ℕ, zero, suc, ◌+◌, String, Bool, true, false, not, ◌&&◌, Option, none, some, List, [], ◌∷◌, ◌++◌,
  length, take, drop, replicate, get_elem?, ◌==◌, if◌then◌else◌, contains, string_discrete,
}
use block_lut.Outcome.{Result, ok, raise, index_error, ◌>>=◌, ◌>>◌}
use block_lut.Dict
use block_lut.Dict.{Dict}
use block_lut.TensorIndex.{ℤ, Entry, times, read_index}

pub data Dtype : Type 0 where
  float16 float32 int32 bfloat16 uint8 int8 int64 : Dtype

-- `DTYPE_MAP.get(code, torch.bfloat16)`
unfoldable pub dtype_of : ℤ → Dtype
dtype_of (ℤ.negsuc n) = Dtype.bfloat16
dtype_of (ℤ.pos n) =
    if n == 5
    then Dtype.float16
    else if n == 7
    then Dtype.float32
    else if n == 3
    then Dtype.int32
    else if n == 11
    then Dtype.bfloat16
    else if n == 6
    then Dtype.uint8
    else if n == 2
    then Dtype.int8
    else if n == 4
    then Dtype.int64
    else Dtype.bfloat16

unfoldable pub is_bfloat16 : Dtype → Bool
is_bfloat16 Dtype.bfloat16 = true
is_bfloat16 _ = false

unfoldable pub is_uint8 : Dtype → Bool
is_uint8 Dtype.uint8 = true
is_uint8 _ = false

pub record Tensor (V : Type 0) : Type 0 where
  pub dtype : Dtype
  pub shape : List ℤ
  pub values : List V

pub record Torch (V : Type 0) : Type 0 where
  -- `torch.frombuffer(torch.as_tensor(full), dtype=dtype)`
  pub frombuffer : List ℕ → Dtype → Result (List V)
  -- An element of `torch.zeros`.
  pub zero : V
  -- Whether `reshape` of so many elements is refused.
  pub reshape : ℕ → List ℤ → Result (Unit {0})

-- `xs[i]`
unfoldable pub at_index : List ℕ → ℕ → Result ℕ
at_index xs i = elim (get_elem? xs i) [ none ↦ raise index_error | some x ↦ ok x ]

-- The chunks of the loop from `i` on, one after the other.
unfoldable pub read_chunks : List ℕ → Entry → ℕ → ℕ → Result (List ℕ)
unfolding at_index
read_chunks param e zero i = ok []
read_chunks param e (suc count) i = do
  offset ← at_index e.exp_offsets i
  comp_size ← at_index e.compressed_sizes i
  orig_size ← at_index e.original_sizes i
  rest ← read_chunks param e count (i + 1)
  ok (take comp_size (drop offset param) ++ rest)

pub record Converted (V : Type 0) : Type 0 where
  pub state_dict : Dict String (Tensor V)
  pub expert_count : ℕ
  pub dense_count : ℕ

-- `"experts." in name and "shared_expert" not in name`
unfoldable pub is_expert : String → Bool
is_expert name = contains name "experts." && not (contains name "shared_expert")

-- The counts of a tensor.
unfoldable pub count_tensor : {V : Type 0} → Bool → String → Tensor V → Converted V → Converted V
unfolding is_expert is_bfloat16 is_uint8
count_tensor has_codebook name tensor s =
    if is_expert name && has_codebook && is_bfloat16 tensor.dtype
    then (if is_uint8 tensor.dtype
        then record s { expert_count = s.expert_count + 1 }
        else record s { dense_count = s.dense_count + 1 })
    else record s { dense_count = s.dense_count + 1 }

unfoldable pub store_tensor :
    {V : Type 0} → Bool → String → Option (Tensor V) → Converted V → Converted V
unfolding count_tensor Dict.put
store_tensor has_codebook name none s = s
store_tensor has_codebook name (some tensor) s =
    count_tensor has_codebook name tensor
      (record s { state_dict = Dict.put string_discrete name tensor s.state_dict })

module _ {V : Type 0} (t : Torch V) where
  -- The elements, or as many zeros after an exception.
  unfoldable pub interpret : Result (List V) → ℕ → List V
  interpret (ok values) num_elements =
      if length values == num_elements then values else take num_elements values
  interpret (raise e) num_elements = replicate num_elements t.zero

  -- No chunks are no tensor.
  unfoldable pub read_param_data : List ℕ → Entry → Result (Option (Tensor V))
  unfolding read_chunks interpret dtype_of times
  read_param_data param e =
      if times e.num_chunks == 0
      then ok none
      else (read_chunks param e (times e.num_chunks) 0 >>= λ full.
          let dtype = dtype_of e.dtype_code in
          let values = interpret (t.frombuffer full dtype) e.num_elements in
          t.reshape (length values) e.shape
          >> ok (some (record { dtype = dtype; shape = e.shape; values = values })))

  -- The loop over the entries.
  unfoldable pub convert_entries :
      List ℕ → Dict ℕ String → Bool → List Entry → Converted V → Result (Converted V)
  unfolding store_tensor read_param_data Dict.get
  convert_entries param names has_codebook [] s = ok s
  convert_entries param names has_codebook (e ∷ entries) s = elim (Dict.get ℕ_discrete e.id names) [
    | none ↦ convert_entries param names has_codebook entries s
    | some name ↦ read_param_data param e >>= λ tensor.
        convert_entries param names has_codebook entries (store_tensor has_codebook name tensor s)
  ]

-- `{v: k for k, v in name_map.items()}`
unfoldable pub id_to_name : Dict String ℕ → Dict ℕ String → Dict ℕ String
unfolding Dict.put
id_to_name [] names = names
id_to_name ((name, id) ∷ name_map) names = id_to_name name_map (Dict.put ℕ_discrete id name names)

unfoldable pub convert_offload :
    {V : Type 0} → Torch V → List ℕ → List ℕ → Dict String ℕ → Bool → Result (Converted V)
unfolding convert_entries id_to_name read_index
convert_offload t index param name_map has_codebook = read_index index >>= λ entries.
    convert_entries t param (id_to_name name_map []) has_codebook entries
      (record { state_dict = []; expert_count = 0; dense_count = 0 })
