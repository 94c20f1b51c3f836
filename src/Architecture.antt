-- ===== src/Architecture.antt =====
-- What a model's configuration says of its experts: utils/hf_config.py, and `parse_expert_type` of
-- utils/constants.py. `architecture` is `config.architectures[0].lower()`; the regular expressions
-- are Python's `re`, of which `Patterns` holds the first match in a name.
pub mod Experts
use block_lut.Prelude.{
  ℕ, zero, ◌+◌, ◌/◌, Bool, true, false, ◌||◌, Option, none, some, String, List, [], ◌∷◌, ◌==◌,
  if◌then◌else◌, contains,
}
use block_lut.Outcome.{
  Result, ok, raise, runtime_error, assertion_error, attribute_error, zero_division, ◌>>=◌,
}

-- The numbers that are read of a configuration.
pub data Field : Type 0 where
  num_sparse_encoder_layers num_sparse_decoder_layers num_experts encoder_layers : Field
  encoder_sparse_step decoder_layers decoder_sparse_step num_hidden_layers : Field
  num_local_experts n_routed_experts : Field

pub record PretrainedConfig : Type 0 where
  pub architecture : String
  pub is_bfloat16 : Bool
  pub field : Field → Option ℕ

-- `config.<name>`
unfoldable pub attribute : PretrainedConfig → Field → Result ℕ
attribute config f = elim (config.field f) [ none ↦ raise attribute_error | some n ↦ ok n ]

-- `//`
unfoldable pub floor_div : ℕ → ℕ → Result ℕ
floor_div a b = if b == 0 then raise zero_division else ok (a / b)

unfoldable pub parse_expert_dtype : PretrainedConfig → Result ℕ
parse_expert_dtype config = if config.is_bfloat16 then ok 0 else raise assertion_error

-- A model without an encoder.
unfoldable pub decoder_param : PretrainedConfig → Field → Result (ℕ × ℕ × ℕ)
unfolding attribute
decoder_param config experts_field = do
  num_layers ← attribute config num_hidden_layers
  experts ← attribute config experts_field
  ok (num_layers, experts, 0)

unfoldable pub switch_param : PretrainedConfig → Result (ℕ × ℕ × ℕ)
unfolding attribute
switch_param config = do
  num_encoder_layers ← attribute config num_sparse_encoder_layers
  num_decoder_layers ← attribute config num_sparse_decoder_layers
  experts ← attribute config num_experts
  ok (num_encoder_layers + num_decoder_layers, experts, num_encoder_layers)

unfoldable pub nllb_param : PretrainedConfig → Result (ℕ × ℕ × ℕ)
unfolding attribute floor_div
nllb_param config = do
  encoders ← attribute config encoder_layers
  encoder_step ← attribute config encoder_sparse_step
  num_encoder_layers ← floor_div encoders encoder_step
  decoders ← attribute config decoder_layers
  decoder_step ← attribute config decoder_sparse_step
  num_decoder_layers ← floor_div decoders decoder_step
  experts ← attribute config num_experts
  ok (num_encoder_layers + num_decoder_layers, experts, num_encoder_layers)

-- num_layers, num_experts, num_encoder_layers
unfoldable pub parse_moe_param : PretrainedConfig → Result (ℕ × ℕ × ℕ)
unfolding decoder_param switch_param nllb_param
parse_moe_param config =
    if contains config.architecture "switch"
    then switch_param config
    else if contains config.architecture "nllb"
    then nllb_param config
    else if contains config.architecture "mixtral" || contains config.architecture "arctic"
    then decoder_param config num_local_experts
    else if contains config.architecture "grok" || contains config.architecture "qwen"
    then decoder_param config num_experts
    else if contains config.architecture "deepseek"
    then decoder_param config n_routed_experts
    else raise runtime_error

pub data LayerType : Type 0 where
  encoder decoder : LayerType

pub record Patterns : Type 0 where
  -- (encoder|decoder)\.[a-z]+\.(\d+).*expert_(\d+)
  pub switch_expert : String → Option (LayerType × ℕ × ℕ)
  -- layers\.(\d+)\.block_sparse_moe\.experts\.(\d+)\.
  pub sparse_moe_expert : String → Option (ℕ × ℕ)
  -- layers\.(\d+)\.moe_block\.experts\.(\d+)\.
  pub moe_block_expert : String → Option (ℕ × ℕ)
  -- layers\.(\d+)\.mlp\.experts\.(\d+)\.
  pub mlp_expert : String → Option (ℕ × ℕ)

-- `if result`, where an encoder layer and a decoder layer are counted in steps.
unfoldable pub sparse_layer : ℕ → ℕ → ℕ → Option (LayerType × ℕ × ℕ) → Result (Option (ℕ × ℕ))
unfolding floor_div
sparse_layer encoder_step decoder_step num_encoder_layers none = ok none
sparse_layer encoder_step decoder_step num_encoder_layers (some (decoder, layer_id, expert_id)) = do
  layer ← floor_div layer_id decoder_step
  ok (some (layer + num_encoder_layers, expert_id))
sparse_layer encoder_step decoder_step num_encoder_layers (some (encoder, layer_id, expert_id)) = do
  layer ← floor_div layer_id encoder_step
  ok (some (layer, expert_id))

-- The same with `layer_type = "decoder"` and `decoder_sparse_step = 1`.
unfoldable pub decoder_layer : ℕ → Option (ℕ × ℕ) → Result (Option (ℕ × ℕ))
unfolding floor_div
decoder_layer num_encoder_layers none = ok none
decoder_layer num_encoder_layers (some (layer_id, expert_id)) = do
  layer ← floor_div layer_id 1
  ok (some (layer + num_encoder_layers, expert_id))

-- The branches on the architecture. The last one is `elif "deepseek" or "qwen" in arch`, which is
-- always taken.
unfoldable pub expert_of : Patterns → String → PretrainedConfig → ℕ → Result (Option (ℕ × ℕ))
unfolding attribute sparse_layer decoder_layer
expert_of patterns param_name config num_encoder_layers =
    if contains config.architecture "switch" || contains config.architecture "nllb"
    then (attribute config encoder_sparse_step >>= λ encoder_step.
        attribute config decoder_sparse_step >>= λ decoder_step.
        sparse_layer encoder_step decoder_step num_encoder_layers
          (patterns.switch_expert param_name))
    else if contains config.architecture "mixtral" || contains config.architecture "arctic"
    then decoder_layer num_encoder_layers (patterns.sparse_moe_expert param_name)
    else if contains config.architecture "grok"
    then decoder_layer num_encoder_layers (patterns.moe_block_expert param_name)
    else decoder_layer num_encoder_layers (patterns.mlp_expert param_name)

unfoldable pub parse_expert_id : Patterns → String → PretrainedConfig → Result (Option (ℕ × ℕ))
unfolding parse_moe_param expert_of
parse_expert_id patterns param_name config = do
  param ← parse_moe_param config
  expert_of patterns param_name config param.2

-- The first of the supported architectures that the name contains.
unfoldable pub supported : String → List (String × ℕ) → Result ℕ
supported architecture [] = raise runtime_error
supported architecture ((arch, type) ∷ types) =
    if contains architecture arch then ok type else supported architecture types

-- `MODEL_MAPPING_TYPES`, in the order of `MODEL_MAPPING_NAMES`
abbrev pub model_mapping_types : List (String × ℕ)
model_mapping_types = ("deepseek", 0) ∷ ("switch", 1) ∷ ("qwen", 0) ∷ []

unfoldable pub parse_expert_type : PretrainedConfig → Result ℕ
unfolding supported
parse_expert_type config = supported config.architecture model_mapping_types
