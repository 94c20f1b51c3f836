-- ===== src/EngineInit/SetupHooks.antt =====
-- `setup_lut_moe_hooks` of runtime/model_offload.py: the registration of the tensors that have an
-- id, of the topology and of the experts, and then of the hooks. Parameters and buffers are given
-- by their names, as `named_parameters` and `named_buffers` list them. The three functions that
-- it defines are never used, and are left out. The addresses that are left are
-- given only where the setup returns.
pub mod Offloaded
use block_lut.Prelude.{
  ℕ, suc, ◌||◌, none, some, String, string_discrete, contains, List, [], ◌∷◌, ◌++◌, map,
  if◌then◌else◌, true, false,
}
use block_lut.Dict
use block_lut.Outcome.{Result, ok, ◌>>=◌}
use block_lut.Offload.{NameIdMap}
use block_lut.Offload.Topology.{NameParts, get_topology}
use block_lut.Hooks.{Module, Memory, mem, register}
use block_lut.Hooks as Hooks

-- Names with their tensors.
abbrev pub Named : Type 0
Named = List (String × ℕ)

pub data SetupCall : Type 0 where
  -- a tensor and its id
  register_tensor : ℕ → ℕ → SetupCall
  set_topology : List (String × List (List ℕ)) → SetupCall
  get_node_default_device : List ℕ → SetupCall
  register_expert : ℕ → ℕ → List ℕ → SetupCall
  register_hooks : Hooks.Registration → SetupCall

-- Addresses: `offload_set` and `offload_exemption`.
pub record Addresses : Type 0 where
  pub offload_set : List ℕ
  pub offload_exemption : List ℕ

-- `set.add`
unfoldable pub add : ℕ → List ℕ → List ℕ
unfolding mem
add p ps = if mem p ps then ps else p ∷ ps

module _ (data_ptr : ℕ → ℕ) (name_id_map : NameIdMap) where
  -- `if "shared" in name`
  unfoldable pub exempt : String → ℕ → Addresses → Addresses
  unfolding add
  exempt name p s =
      if contains name "shared"
      then record s { offload_exemption = add p s.offload_exemption }
      else s

  -- The loop over the parameters.
  unfoldable pub register_params : Named → Addresses → List SetupCall × Addresses
  unfolding add exempt
  register_params [] s = ([], s)
  register_params ((name, t) ∷ params) s = elim (Dict.get string_discrete name name_id_map) [
    | none ↦ register_params params s
    | some id ↦
        let p = data_ptr t in
        let added = record s { offload_set = add p s.offload_set } in
        let (calls, s') = register_params params (exempt name p added) in
        (register_tensor t id ∷ calls, s')
  ]

  -- The loop over the buffers.
  unfoldable pub register_buffers : Named → Addresses → List SetupCall × Addresses
  unfolding add
  register_buffers [] s = ([], s)
  register_buffers ((name, t) ∷ buffers) s = elim (Dict.get string_discrete name name_id_map) [
    | none ↦ register_buffers buffers s
    | some id ↦
        let added = record s { offload_set = add (data_ptr t) s.offload_set } in
        let (calls, s') = register_buffers buffers added in (register_tensor t id ∷ calls, s')
  ]

-- The loop over the experts of a layer, from a number on.
unfoldable pub register_experts : ℕ → ℕ → List (List ℕ) → List SetupCall
register_experts expert_layer_id expert_idx [] = []
register_experts expert_layer_id expert_idx (expert_tensors ∷ tensors) =
    get_node_default_device expert_tensors
    ∷ register_expert expert_layer_id expert_idx expert_tensors
    ∷ register_experts expert_layer_id (suc expert_idx) tensors

-- The key by which the loop over the topology tells experts. `first` is `split(".")[0]`.
unfoldable pub short_key : (String → String) → String → String
short_key first key = if contains key "shared" || contains key "lm_head" then first key else key

-- The loop over the topology, from a number of layers of experts on.
unfoldable pub register_topology :
    (String → String) → ℕ → List (String × List (List ℕ)) → List SetupCall
unfolding register_experts short_key
register_topology first expert_layer_id [] = []
register_topology first expert_layer_id ((key, tensors) ∷ topo) =
    elim (contains (short_key first key) "expert") [
      | true ↦
          register_experts expert_layer_id 0 tensors
          ++ register_topology first (suc expert_layer_id) topo
      | false ↦ register_topology first expert_layer_id topo
    ]

-- `count` is the number of the module that `_register_hooks_recursively` starts from.
unfoldable pub setup_lut_moe_hooks :
    NameParts
    → NameParts
    → (String → String)
    → (ℕ → ℕ)
    → NameIdMap
    → Named
    → Named
    → Module
    → ℕ
    → Addresses
    → Result (List SetupCall × Addresses)
unfolding register_params register_buffers register_topology get_topology register
setup_lut_moe_hooks param_parts buffer_parts first data_ptr name_id_map params buffers m count s =
    do
      let (from_params, s1) = register_params data_ptr name_id_map params s
      let (from_buffers, s2) = register_buffers data_ptr name_id_map buffers s1
      let names : Named → List String = map (λ (q : String × ℕ). q.0)
      topo ← get_topology param_parts buffer_parts name_id_map (names params) (names buffers)
      let (hooks, last) =
          register (record { data_ptr = data_ptr; offload_set = s2.offload_set }) m count
      ok (
        from_params
            ++ from_buffers
            ++ set_topology topo ∷ register_topology first 0 topo
            ++ map register_hooks hooks,
        s2,
      )
