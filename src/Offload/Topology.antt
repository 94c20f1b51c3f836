-- ===== src/Offload/Topology.antt =====
-- `get_topology` of runtime/model_offload.py: the tensors of a model, grouped by the module that
-- they belong to, and in a group of experts by expert. The regular expressions are Python's `re`:
-- `NameParts` holds what they, `split` and `rsplit` give for a name.
pub mod Weights
pub mod Complete
use block_lut.Prelude.{
  ℕ, zero, Bool, true, false, not, ◌&&◌, Option, none, some, String, List, [], ◌∷◌, ◌++◌, map,
  if◌then◌else◌, contains, string_discrete,
}
use block_lut.Outcome.{
  Result, ok, raise, assertion_error, index_error, type_error, key_error, ◌>>=◌,
}
use block_lut.Dict
use block_lut.Dict.{Dict}
use block_lut.Offload.{NameIdMap, is_sparse}

pub record NameParts : Type 0 where
  -- `re.search(r"\d+", name)` finds a match
  pub has_number : String → Bool
  -- the group of `re.match(r"(.*experts)", name)`
  pub up_to_experts : String → Option String
  -- `components[-3]` of `name.split(".")`
  pub third_last : String → Option String
  -- for a parameter: up to the end of the last number between dots; for a buffer: up to the last
  -- digit
  pub up_to_number : String → Result String
  -- `rsplit(".", 1)[0]`
  pub up_to_last_dot : String → String

-- A value of `ret_dict`: a dictionary for experts, a list of one list otherwise.
pub data Group : Type 0 where
  experts : Dict String (List ℕ) → Group
  dense : List ℕ → Group

abbrev pub Groups : Type 0
Groups = Dict String Group

-- `ret_dict[stored_name]` of an expert's tensor. A string does not index a list.
unfoldable pub add_to_experts : String → ℕ → Group → Result Group
add_to_experts expert_name id (dense ids) = raise type_error
add_to_experts expert_name id (experts d) = elim (Dict.get string_discrete expert_name d) [
  | some ids ↦ ok (experts (Dict.put string_discrete expert_name (ids ++ (id ∷ [])) d))
  | none ↦ ok (experts (Dict.put string_discrete expert_name (id ∷ []) d))
]

-- `ret_dict[stored_name][0].append`. The number 0 is no key of a dictionary of experts.
unfoldable pub add_to_dense : ℕ → Group → Result Group
add_to_dense id (dense ids) = ok (dense (ids ++ (id ∷ [])))
add_to_dense id (experts d) = raise key_error

-- `name_lst` holds the keys of `ret_dict`, so that it is left out.
unfoldable pub add_expert : String → String → ℕ → Groups → Result Groups
unfolding add_to_experts
add_expert stored_name expert_name id groups = elim (Dict.get string_discrete stored_name groups) [
  | none ↦ ok (Dict.put string_discrete stored_name (experts ((expert_name, id ∷ []) ∷ [])) groups)
  | some group ↦ do
    more ← add_to_experts expert_name id group
    ok (Dict.put string_discrete stored_name more groups)
]

unfoldable pub add_dense : String → ℕ → Groups → Result Groups
unfolding add_to_dense
add_dense stored_name id groups = elim (Dict.get string_discrete stored_name groups) [
  | none ↦ ok (Dict.put string_discrete stored_name (dense (id ∷ [])) groups)
  | some group ↦ do
    more ← add_to_dense id group
    ok (Dict.put string_discrete stored_name more groups)
]

-- The branch of an expert's tensor.
unfoldable pub place_expert : NameParts → String → ℕ → Groups → Result Groups
unfolding add_expert
place_expert parts name id groups = elim (parts.up_to_experts name) [
  | none ↦ raise assertion_error
  | some stored_name ↦ elim (parts.third_last name) [
    | none ↦ raise index_error
    | some expert_name ↦ add_expert stored_name expert_name id groups
  ]
]

-- The body of the loops, for a name that has an id.
unfoldable pub place : NameParts → String → ℕ → Groups → Result Groups
unfolding place_expert add_dense
place parts name id groups =
    if parts.has_number name
    then (if is_sparse name
        then place_expert parts name id groups
        else (parts.up_to_number name >>= λ stored_name. add_dense stored_name id groups))
    else add_dense (parts.up_to_last_dot name) id groups

-- A loop over names. A name without an id is passed over.
unfoldable pub place_all : NameParts → NameIdMap → List String → Groups → Result Groups
unfolding place
place_all parts name_id_map [] groups = ok groups
place_all parts name_id_map (name ∷ names) groups = do
  more ← elim (Dict.get string_discrete name name_id_map) [
    | none ↦ ok groups
    | some id ↦ place parts name id groups
  ]
  place_all parts name_id_map names more

-- `list(ret_dict[i].values())` of experts; of a dense group, its one list
unfoldable pub tensor_lists : Group → List (List ℕ)
tensor_lists (experts d) = map (λ (e : String × List ℕ). e.1) d
tensor_lists (dense ids) = ids ∷ []

-- Parameters and buffers are parsed differently.
unfoldable pub get_topology :
    NameParts
    → NameParts
    → NameIdMap
    → List String
    → List String
    → Result (List (String × List (List ℕ)))
unfolding place_all tensor_lists
get_topology param_parts buffer_parts name_id_map params buffers = do
  groups ← place_all param_parts name_id_map params []
  all ← place_all buffer_parts name_id_map buffers groups
  ok (map (λ (g : String × Group). (g.0, tensor_lists g.1)) all)
