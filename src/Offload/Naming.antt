-- ===== src/Offload/Naming.antt =====
-- What `lut_moe_from_pretrained` of runtime/model_offload.py does with the map from names to ids
-- before and after loading: the choice between loading the checkpoint and reading the map that an
-- earlier run wrote, the renaming to the names of the model's parameters, the ids of a tied output
-- layer, and the map from experts to tensors.
pub mod Lookup
use Prim.Native.String.{len, slice}
use text.Mathlib.Text.{starts_with}
use block_lut.Prelude.{
  ℕ, zero, suc, ◌+◌, Bool, true, false, not, ◌&&◌, ◌||◌, Option, none, some, String, List, [], ◌∷◌,
  ◌++◌, map, if◌then◌else◌, string_discrete,
}
use block_lut.Outcome.{Result, ok, raise, ◌>>=◌}
use block_lut.Dict
use block_lut.Dict.{Dict}
use block_lut.Progressive.{Key, key_discrete}
use block_lut.Offload.{NameIdMap, OffloadEvent, Loader, start, load_files}

-- What is on disk: whether the engine finds its tensor index, and the file name_id_map.json.
pub record Disk : Type 0 where
  pub tensor_index_initialized : Bool
  pub name_id_map_file : Option NameIdMap

-- Whether an event writes to the disk: a tensor that the engine has already is not written.
abbrev pub any_event : {T S : Type 0} → List (OffloadEvent T S) → Bool
any_event [] = false
any_event (e ∷ events) = true

-- After loading, the map is dumped. The engine writes its tensor index with each tensor that it
-- stores, so that without an index before there is one afterwards only if something was stored.
unfoldable pub saved :
    {T S : Type 0} → Bool → Loader T S → NameIdMap × List (OffloadEvent T S) × Disk
saved initialized s = (
  s.name_id_map,
  s.events,
  record {
    tensor_index_initialized = initialized || any_event s.events;
    name_id_map_file = some s.name_id_map;
  },
)

-- The branch on the files that are there. The keys of the map are strings and its values
-- integers, which JSON keeps as they are.
unfoldable pub obtain_name_id_map :
    {T S : Type 0}
    → (T → T)
    → (T → Result S)
    → (ℕ → Bool)
    → ℕ
    → ℕ
    → List (Dict String T)
    → Disk
    → Result (NameIdMap × List (OffloadEvent T S) × Disk)
unfolding load_files start
obtain_name_id_map to_dtype split is_tensor_offloaded threads chunks files disk =
    let load = load_files to_dtype split is_tensor_offloaded threads chunks files start >>= λ s.
    ok (saved disk.tensor_index_initialized s) in
    elim disk.name_id_map_file [
      | none ↦ load
      | some name_id_map ↦
          if disk.tensor_index_initialized then ok (name_id_map, [], disk) else load
    ]

-- `name[len(base_model_prefix)+1:]`
abbrev pub without_prefix : String → String → String
without_prefix base_model_prefix name = slice name (len base_model_prefix + 1) (len name)

-- The step for one parameter: the new map, and `param.lut_moe_id`.
unfoldable pub rename_param : String → String → NameIdMap → NameIdMap × Option ℕ
rename_param base_model_prefix name name_id_map =
    let renamed =
      if starts_with name base_model_prefix
      then elim (Dict.get string_discrete (without_prefix base_model_prefix name) name_id_map) [
        | none ↦ name_id_map
        | some id ↦
            Dict.remove string_discrete (without_prefix base_model_prefix name)
              (Dict.put string_discrete name id name_id_map)
      ]
      else name_id_map in
    (renamed, Dict.get string_discrete name renamed)

-- The loop over the parameters.
unfoldable pub rename_params : String → List String → NameIdMap → NameIdMap × List (Option ℕ)
unfolding rename_param
rename_params base_model_prefix [] name_id_map = (name_id_map, [])
rename_params base_model_prefix (name ∷ names) name_id_map =
    let (renamed, id) = rename_param base_model_prefix name name_id_map in
    let (final, ids) = rename_params base_model_prefix names renamed in (final, id ∷ ids)

-- `if "lm_head.weight" not in self.name_id_map`
unfoldable pub tie_lm_head : NameIdMap → NameIdMap
tie_lm_head name_id_map = elim (Dict.get string_discrete "lm_head.weight" name_id_map) [
  | some id ↦ name_id_map
  | none ↦ Dict.put string_discrete "decoder.embed_tokens.weight" 0 (
      Dict.put string_discrete "encoder.embed_tokens.weight" 0
        (Dict.put string_discrete "lm_head.weight" 0 name_id_map))
]

-- The loop that fills `expert_tensor_map`; `parse_expert_id` gives the layer and the expert of a
-- name, if it is one of an expert.
unfoldable pub expert_tensors :
    (String → Result (Option Key)) → NameIdMap → Dict Key ℕ → Result (Dict Key ℕ)
expert_tensors parse_expert_id [] tensor_map = ok tensor_map
expert_tensors parse_expert_id ((name, id) ∷ names) tensor_map = do
  parsed ← parse_expert_id name
  expert_tensors parse_expert_id names
      (elim parsed [ none ↦ tensor_map | some key ↦ Dict.put key_discrete key id tensor_map ])
