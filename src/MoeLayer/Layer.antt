-- ===== src/MoeLayer/Layer.antt =====
-- `DeepseekV2MoE_LUT`: its codebook and the wrappers of its experts. The wrappers share the
-- layer's quantizer, of which they use only what training and loading leave alone. The object
-- that `quantize_expert_weights` leaves is given only where it returns.
use mathlib.Core.List.{flatten}
use block_lut.Prelude.{
  ℕ, ◌*◌, Bool, true, false, String, Option, none, some, List, [], ◌∷◌, ◌++◌, get_elem?, range',
  if◌then◌else◌,
}
use block_lut.Dict.{Dict}
use block_lut.Outcome.{Result, ok, raise, index_error, attribute_error, ◌>>=◌}
use block_lut.Progressive as Progressive
use block_lut.Progressive.{ExpertCache, record_access}
use block_lut.Quantizer.Numbers.{Numbers}
use block_lut.Quantizer.State.{LutQuantizer}
use block_lut.Quantizer.Blocks.{train}
use block_lut.Quantizer.Files.{load}
use block_lut.MoeLayer.Wrapper as Wrapper
use block_lut.MoeLayer.Wrapper.{ExpertWrapper, set_weights, get_weight}

pub record MoeLut (A W : Type 0) : Type 0 where
  pub hidden_size : ℕ
  pub intermediate_size : ℕ
  pub num_experts : ℕ
  pub top_k : ℕ
  -- `config.num_hidden_layers`, where the configuration has it
  pub num_hidden_layers : Option ℕ
  -- `lut_config.enable_progressive_loading`, false without a `lut_config`
  pub enable_progressive_loading : Bool
  pub quantizer : LutQuantizer A
  pub codebook_loaded : Bool
  pub codebook : Option (List A)
  pub experts : List (ExpertWrapper A)
  pub expert_cache : Option (ExpertCache W)
  pub progressive_enabled : Bool
  pub layer_id : ℕ

module _ {A W : Type 0} where
  -- The buffer of the layer, once the quantizer has a codebook.
  unfoldable pub keep_codebook : Option (List A) → MoeLut A W → MoeLut A W
  keep_codebook none m = m
  keep_codebook (some codebook) m = record m { codebook_loaded = true; codebook = some codebook }

  -- `self.expert_cache = ...`, if it is enabled.
  unfoldable pub init_cache : MoeLut A W → MoeLut A W
  init_cache m =
      if m.enable_progressive_loading
      then record m {
        expert_cache = some (
            Progressive.init (elim m.num_hidden_layers [ some k ↦ k | none ↦ 27 ]) m.num_experts
              (m.num_experts * 2) 50 10);
        progressive_enabled = true;
      }
      else m

module _ {A W : Type 0} (n : Numbers A) where
  unfoldable pub load_codebook : Dict String (List A) → MoeLut A W → Bool × MoeLut A W
  unfolding keep_codebook
  load_codebook files m =
      let (loaded, quantizer) = load n files m.quantizer in
      let m1 = record m { quantizer = quantizer } in
      (loaded, if loaded then keep_codebook quantizer.lut_codebook m1 else m1)

  -- The codebook, trained if there is none.
  unfoldable pub train_codebook : List A → MoeLut A W → Result (MoeLut A W)
  unfolding train
  train_codebook all_weights m = elim m.codebook_loaded [
    | true ↦ ok m
    | false ↦ train n m.quantizer all_weights 50 >>= λ quantizer. elim quantizer.lut_codebook [
      | none ↦ raise attribute_error
      | some codebook ↦
          ok (record m { quantizer = quantizer; codebook = some codebook; codebook_loaded = true })
    ]
  ]

  -- The loop over the experts: an expert without weights is an IndexError.
  unfoldable pub wrap_experts :
      MoeLut A W → List A → List (List A) → List (List A) → List ℕ → Result (List (ExpertWrapper A))
  unfolding set_weights
  wrap_experts m codebook w13 w2 [] = ok []
  wrap_experts m codebook w13 w2 (i ∷ is) = elim (get_elem? w13 i) [
    | none ↦ raise index_error
    | some w13_weight ↦ elim (get_elem? w2 i) [
      | none ↦ raise index_error
      | some w2_weight ↦
          let (done, expert) =
            set_weights n w13_weight w2_weight codebook
              (Wrapper.init m.hidden_size m.intermediate_size m.quantizer) in
          done >>= λ _. wrap_experts m codebook w13 w2 is >>= λ rest. ok (expert ∷ rest)
    ]
  ]

  -- A layer with a codebook that is None cannot quantize.
  unfoldable pub quantize_layer : List (List A) → List (List A) → MoeLut A W → Result (MoeLut A W)
  unfolding train_codebook wrap_experts init_cache
  quantize_layer w13 w2 m = do
    trained ← train_codebook (flatten w13 ++ flatten w2) m
    codebook ← (elim trained.codebook [ some c ↦ ok c | none ↦ raise attribute_error ])
    experts ← wrap_experts trained codebook w13 w2 (range' 0 trained.num_experts)
    ok (init_cache (record trained { experts = experts }))
