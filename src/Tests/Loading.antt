-- ===== src/Tests/Loading.antt =====
-- Loading a small checkpoint: two files, three tensors of experts and two others.
use block_lut.Prelude.{
  ℕ, ◌+◌, ◌/◌, ◌≡◌, refl, Bool, false, Option, none, some, String, List, [], ◌∷◌, ◌++◌, All, arith,
  string_discrete, contains, ◌||◌,
}
use block_lut.Prelude
use block_lut.Outcome.{Result, ok, raise, Returns}
use block_lut.Split.{CodeType, Split, split_and_extract_from_tensor}
use block_lut.Dict
use block_lut.Dict.{Dict}
use block_lut.Counter.Laws.{occurrences}
use block_lut.Offload
use block_lut.Offload.{Loader, NameIdMap, OffloadEvent, offload, batch_offload, start, load_files}
use block_lut.Offload.Names.{numbered_names}
use block_lut.Offload.Written.{written, IsSmall, numbered_parts}
use block_lut.Offload.Files.{all_tensors, load_files-written}
use block_lut.Offload.Naming.{Disk}
use block_lut.Offload.Topology.{NameParts, get_topology}
use block_lut.Offload.Topology.Complete.{listed, known, get_topology-listed}
use block_lut.Offload.Topology
use block_lut.Hooks
use block_lut.Hooks.{Module, node, mem}
use block_lut.EngineInit.SetupHooks.{Named, Addresses, setup_lut_moe_hooks}
use block_lut.EngineInit.SetupHooks.Offloaded.{lies_at, setup_lut_moe_hooks-mem}

abbrev files : List (Dict String ℕ)
files =
    (("a.experts.0.w", 70) ∷ ("a.experts.1.w", 71) ∷ ("a.experts.2.w", 72) ∷ ("a.gate", 73) ∷ [])
    ∷ (("norm", 74) ∷ [])
    ∷ []

abbrev same : ℕ → ℕ
same v = v

abbrev splits : ℕ → Result ℕ
splits v = ok (v + 100)

abbrev parts : ℕ → ℕ
parts v = v + 100

abbrev nothing : ℕ → Bool
nothing id = false

program : Unit {0}
unfolding load_files start Offload.max_batch_size Offload.load_tensors Offload.load_tensor
    Offload.add_tensor Offload.flush_full Offload.flush_rest Offload.flush Offload.generate_param_id
    Offload.lut_moe_offload_to_disk Offload.lut_moe_batch_offload_to_disk Offload.is_sparse Dict.get
    Dict.put Dict.remove string_discrete Prelude.by_test
program = tt

abbrev names : NameIdMap
names =
    ("a.experts.0.w", 0)
    ∷ ("a.experts.1.w", 1)
    ∷ ("a.experts.2.w", 2)
    ∷ ("a.gate", 3)
    ∷ ("norm", 4)
    ∷ []

abbrev loader : Loader ℕ ℕ
loader = record {
  name_id_map = names;
  param_id = 5;
  events =
      batch_offload (
        record { tensor_id = 0; tensor = 70; parts = 170 }
        ∷ record { tensor_id = 1; tensor = 71; parts = 171 }
        ∷ [])
      ∷ batch_offload (record { tensor_id = 2; tensor = 72; parts = 172 } ∷ [])
      ∷ offload (record { tensor_id = 3; tensor = 73; parts = 173 }) false
      ∷ offload (record { tensor_id = 4; tensor = 74; parts = 174 }) false
      ∷ [];
  batch = [];
  batch_size = 0;
}

-- Batches of at most two.
loads : load_files same splits nothing 6 3 files start ≡ ok loader
unfolding program
loads = refl

-- Three weights with four indices each, and the split of the program for BLOCKLUT.
abbrev lut_files : List (Dict String (List ℕ))
lut_files =
    (("a.experts.0.w", 7 ∷ 0 ∷ 255 ∷ 4 ∷ []) ∷ ("a.gate", 1 ∷ 2 ∷ 3 ∷ 4 ∷ []) ∷ [])
    ∷ (("norm", 9 ∷ 9 ∷ 8 ∷ 0 ∷ []) ∷ [])
    ∷ []

abbrev unchanged : List ℕ → List ℕ
unchanged v = v

lut_split : List ℕ → Result Split
unfolding split_and_extract_from_tensor
lut_split v = split_and_extract_from_tensor CodeType.blocklut (λ w. (w, 16256 ∷ [])) v 3

lut_parts : List ℕ → Split
lut_parts v = elim (lut_split v) [ raise e ↦ record { chunks = []; rest = [] } | ok split ↦ split ]

load_files-written_example :
    (s : Loader (List ℕ) Split) × (load_files unchanged lut_split nothing 6 3 lut_files start
      ≡ ok s)
    × (written s.events ≡ numbered_parts unchanged lut_parts 0 (all_tensors lut_files))
    × (s.name_id_map ≡ numbered_names 0 (all_tensors lut_files))
    × All (IsSmall (6 / 3)) s.events
    × (s.batch ≡ [])
unfolding program lut_split lut_parts
load_files-written_example =
    load_files-written unchanged lut_parts lut_split nothing 6 3 lut_files (omega arith)
      (omega arith) ((refl, (refl, tt)), ((refl, tt), tt)) (λ i. refl) (refl, (refl, (refl, tt)))

abbrev empty_disk : Disk
empty_disk = record { tensor_index_initialized = false; name_id_map_file = none }

abbrev written_disk : Disk
written_disk = record { tensor_index_initialized = Prelude.true; name_id_map_file = some names }

abbrev short_names : NameIdMap
short_names = ("norm", 4) ∷ ("gate", 3) ∷ []

abbrev name_parts : NameParts
name_parts = record {
  has_number = λ name. contains name "0";
  up_to_experts = λ name. some "l.0.mlp.experts";
  third_last = λ name. some "0";
  up_to_number = λ name. ok "l.0.";
  up_to_last_dot = λ name. "norm";
}

abbrev tensor_ids : NameIdMap
tensor_ids =
    ("l.0.mlp.experts.0.up.w", 5)
    ∷ ("l.0.mlp.experts.0.down.w", 6)
    ∷ ("l.0.norm.w", 7)
    ∷ ("norm.w", 8)
    ∷ []

abbrev params : List String
params =
    "l.0.norm.w" ∷ "l.0.mlp.experts.0.up.w" ∷ "unknown" ∷ "l.0.mlp.experts.0.down.w" ∷ "norm.w" ∷ []

topology :
    get_topology name_parts name_parts tensor_ids params []
    ≡ ok (
        ("l.0.", (7 ∷ []) ∷ [])
        ∷ ("l.0.mlp.experts", (5 ∷ 6 ∷ []) ∷ [])
        ∷ ("norm", (8 ∷ []) ∷ [])
        ∷ [])
unfolding program get_topology Topology.place_all Topology.place Topology.place_expert
    Topology.add_expert Topology.add_dense Topology.add_to_experts Topology.add_to_dense
    Topology.tensor_lists Offload.is_sparse
topology = refl

get_topology-listed_example :
    occurrences 5 (
      listed (
        ("l.0.", (7 ∷ []) ∷ [])
        ∷ ("l.0.mlp.experts", (5 ∷ 6 ∷ []) ∷ [])
        ∷ ("norm", (8 ∷ []) ∷ [])
        ∷ []))
    ≡ occurrences 5 (known tensor_ids params) + occurrences 5 (known tensor_ids [])
get_topology-listed_example =
    get_topology-listed name_parts name_parts tensor_ids params []
      (("l.0.", (7 ∷ []) ∷ [])
        ∷ ("l.0.mlp.experts", (5 ∷ 6 ∷ []) ∷ [])
        ∷ ("norm", (8 ∷ []) ∷ [])
        ∷ [])
      topology 5

-- Tensor `t` lies at `100 + t`.
abbrev named : Named
named =
    ("l.0.norm.w", 0)
    ∷ ("l.0.mlp.experts.0.up.w", 1)
    ∷ ("unknown", 2)
    ∷ ("l.0.mlp.experts.0.down.w", 3)
    ∷ ("norm.w", 4)
    ∷ []

abbrev no_addresses : Addresses
no_addresses = record { offload_set = []; offload_exemption = [] }

abbrev flat_model : Module
flat_model = node (0 ∷ 1 ∷ 2 ∷ 3 ∷ 4 ∷ []) [] Hooks.none

setup_lut_moe_hooks-mem_example :
    Returns
      (λ r.
        (p : ℕ)
        → mem p (r.1).offload_set ≡ (
            mem p []
            || lies_at (λ t. 100 + t) tensor_ids p named
            || lies_at (λ t. 100 + t) tensor_ids p []))
      (setup_lut_moe_hooks name_parts name_parts
        (λ key. key)
        (λ t. 100 + t)
        tensor_ids
        named
        []
        flat_model
        0
        no_addresses)
setup_lut_moe_hooks-mem_example =
    setup_lut_moe_hooks-mem (λ t. 100 + t) tensor_ids name_parts name_parts (λ key. key) named []
      flat_model 0 no_addresses
      (("l.0.", (7 ∷ []) ∷ [])
        ∷ ("l.0.mlp.experts", (5 ∷ 6 ∷ []) ∷ [])
        ∷ ("norm", (8 ∷ []) ∷ [])
        ∷ [])
      topology
