-- ===== src/Tests/Architectures.antt =====
-- The keys of experts in a qwen and in a switch model.
use block_lut.Prelude.{
  ℕ, ◌≡◌, refl, true, ◌&&◌, contains, if◌then◌else◌, Option, none, some, String, arith,
}
use block_lut.Outcome.{ok}
use block_lut.Architecture
use block_lut.Architecture.{
  PretrainedConfig, Field, Patterns, LayerType, encoder, decoder, parse_moe_param, parse_expert_id,
}
use block_lut.Architecture.Experts.{parse_expert_id-injective}

abbrev two : Field → Option ℕ
two field = some 2

abbrev config : String → PretrainedConfig
config name = record { architecture = name; is_bfloat16 = true; field = two }

-- What the expressions find in two names.
abbrev find : String → Option (LayerType × ℕ × ℕ)
find name =
    if contains name "encoder.block.3" && contains name "expert_7"
    then some (encoder, 3, 7)
    else if contains name "decoder.block.3" && contains name "expert_7"
    then some (decoder, 3, 7)
    else none

abbrev patterns : Patterns
patterns = record {
  switch_expert = find;
  sparse_moe_expert = λ name. none;
  moe_block_expert = λ name. none;
  mlp_expert = λ name. some (5, 9);
}

program : Unit {0}
unfolding parse_moe_param parse_expert_id Architecture.expert_of Architecture.attribute
    Architecture.switch_param Architecture.decoder_param Architecture.floor_div
    Architecture.sparse_layer Architecture.decoder_layer
program = tt

-- The decoder's layers come after the two of the encoder.
switch_key :
    parse_expert_id patterns "decoder.block.3.layer.2.mlp.experts.expert_7.wi.weight"
      (config "switchtransformersforconditionalgeneration")
    ≡ ok (some (3, 7))
unfolding program
switch_key = refl

qwen_param : parse_moe_param (config "qwen2moeforcausallm") ≡ ok (2, 2, 0)
unfolding program
qwen_param = refl

switch_param : parse_moe_param (config "switchtransformersforconditionalgeneration") ≡ ok (4, 2, 2)
unfolding program
switch_param = refl

parse_expert_id-injective_example : (encoder ≡ encoder) × ◌≡◌ {A = ℕ} 3 3 × ◌≡◌ {A = ℕ} 7 7
unfolding program
parse_expert_id-injective_example =
    parse_expert_id-injective patterns "encoder.block.3.layer.1.mlp.experts.expert_7.wi.weight"
      "encoder.block.3.layer.1.mlp.experts.expert_7.wi.weight"
      (config "switchtransformersforconditionalgeneration") (4, 2, 2) 1 1 1 1 encoder encoder 3 3 7
      7 refl switch_param refl refl refl refl (omega arith, omega arith) (omega arith, omega arith)
      refl
