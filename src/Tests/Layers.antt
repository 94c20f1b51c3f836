-- ===== src/Tests/Layers.antt =====
-- The MoE layer for vLLM over the natural numbers: rows are numbers, and a weight multiplies them
-- by its first element.
use block_lut.Prelude.{
  true, false, ℕ, zero, ◌+◌, ◌*◌, ◌≡◌, refl, true, some, List, [], ◌∷◌, replicate, ◌==◌,
  if◌then◌else◌, arith,
}
use block_lut.Outcome.{ok, raise, value_error, attribute_error, Returns}
use block_lut.Progressive as Progressive
use block_lut.Split.{CodeType}
use block_lut.Quantizer.Codes.{is_blockwise}
use block_lut.MoeLayer.Wrapper as Wrapper
use block_lut.MoeLayer.Wrapper.{ExpertWrapper, set_weights, get_weight, set_decompressed}
use block_lut.MoeLayer.Wrapper.Recovers.{Restores, get_weight-set_weights}
use block_lut.MoeLayer.Layer.{MoeLut}
use block_lut.MoeLayer.Forward.{Network, forward}
use block_lut.Tests.Quantizers.{naturals, naturals-IsShaped, naturals-IsOrdered, quantizer}

abbrev wrapper : ExpertWrapper ℕ
unfolding Wrapper.init
wrapper = Wrapper.init 1 2 (quantizer CodeType.blocklut)

abbrev codes : List ℕ
codes = 0 ∷ 1 ∷ 2 ∷ []

get_weight-set_weights_example :
    ((set_weights naturals (4 ∷ 8 ∷ 5 ∷ 10 ∷ []) (3 ∷ 6 ∷ []) codes wrapper).0 ≡ ok tt)
    × Returns (Restores naturals wrapper.quantizer codes (4 ∷ 8 ∷ 5 ∷ 10 ∷ [])) (
        get_weight naturals "w13"
          (set_weights naturals (4 ∷ 8 ∷ 5 ∷ 10 ∷ []) (3 ∷ 6 ∷ []) codes wrapper).1)
    × Returns (Restores naturals wrapper.quantizer codes (3 ∷ 6 ∷ [])) (
        get_weight naturals "w2"
          (set_weights naturals (4 ∷ 8 ∷ 5 ∷ 10 ∷ []) (3 ∷ 6 ∷ []) codes wrapper).1)
unfolding is_blockwise wrapper
get_weight-set_weights_example =
    get_weight-set_weights naturals naturals-IsShaped naturals-IsOrdered wrapper
      (4 ∷ 8 ∷ 5 ∷ 10 ∷ []) (3 ∷ 6 ∷ []) codes refl (omega arith) (omega arith) (omega arith)
      (omega arith) (omega arith) (omega arith) (omega arith) refl refl

-- Without weights there are no buffers to decompress.
no_weights : get_weight naturals "w13" wrapper ≡ raise attribute_error
unfolding get_weight wrapper
no_weights = refl

no_such_weight : get_weight naturals "w1" wrapper ≡ raise value_error
unfolding get_weight wrapper
no_such_weight = refl

abbrev first : List ℕ → ℕ
first [] = 0
first (a ∷ rest) = a

-- The row 0 chooses the experts 1 and 0, any other row the expert 1 twice.
abbrev network : Network ℕ ℕ
network = record {
  space = record { zero = 0; add = ◌+◌; scale = ◌*◌ };
  gate = λ x. x;
  gate_gives_pair = false;
  softmax = λ x. x;
  topk = λ k x. (replicate k 3, replicate k (if x == 0 then 0 else 1));
  cast = λ w. w;
  linear = λ w x. first w * x;
  silu_mul = λ x. x + 1;
  shared_experts = some (λ x. 100 * x);
}

abbrev weights_13 : ℕ → List ℕ
weights_13 i = (i + 1) ∷ []

abbrev weights_2 : ℕ → List ℕ
weights_2 i = (i + 2) ∷ []

abbrev expert : ℕ → ExpertWrapper ℕ
unfolding Wrapper.init set_decompressed
expert i = set_decompressed (weights_13 i) (weights_2 i) wrapper

abbrev layer : MoeLut ℕ ℕ
unfolding Progressive.init
layer = record {
  hidden_size = 1;
  intermediate_size = 2;
  num_experts = 2;
  top_k = 2;
  num_hidden_layers = some 1;
  enable_progressive_loading = true;
  quantizer = quantizer CodeType.blocklut;
  codebook_loaded = true;
  codebook = some codes;
  experts = expert 0 ∷ expert 1 ∷ [];
  expert_cache = some (Progressive.init 1 2 4 50 10);
  progressive_enabled = true;
  layer_id = 0;
}

-- Hidden states without a batch dimension cannot be unpacked.
two_dimensions : forward naturals network (2 ∷ 1 ∷ []) (0 ∷ 5 ∷ []) layer ≡ raise value_error
unfolding forward
two_dimensions = refl

-- A gate that gives a pair of output and bias.
gate_with_bias :
    forward naturals (record network { gate_gives_pair = true }) (1 ∷ 2 ∷ 1 ∷ []) (0 ∷ 5 ∷ []) layer
    ≡ raise attribute_error
unfolding forward
gate_with_bias = refl
