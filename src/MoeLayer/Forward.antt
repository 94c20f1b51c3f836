-- ===== src/MoeLayer/Forward.antt =====
-- The forward pass of `DeepseekV2MoE_LUT`, a tensor of tokens being its shape and the list of its
-- rows. torch's `softmax`, `topk` and `linear`, the gate and the shared experts of vLLM are
-- parameters. The object that `forward` leaves is given only where it returns.
pub mod Tracking
pub mod Slots
pub mod Choices
pub mod Mixture
use block_lut.Prelude.{
  ℕ, Bool, true, false, not, Option, none, some, List, [], ◌∷◌, map, length, get_elem?, get_or,
  replicate, range', ◌==◌,
}
use block_lut.Outcome.{Result, ok, require, value_error, attribute_error, ◌>>=◌, ◌>>◌}
use block_lut.Progressive.{ExpertCache, record_access}
use block_lut.Quantizer.Numbers.{Numbers}
use block_lut.Routing.{Space, any, select, add_at, scale_rows, add_rows}
use block_lut.MoeLayer.Wrapper.{ExpertWrapper, get_weight}
use block_lut.MoeLayer.Layer.{MoeLut}

-- What the forward pass uses of torch and of vLLM.
pub record Network (A V : Type 0) : Type 0 where
  pub space : Space A V
  -- The gate, `softmax`, `topk` with its values and indices, and the cast of the weights.
  pub gate : V → V
  -- Whether a call of the gate gives a pair of its output and a bias, as vLLM's linear layers do.
  pub gate_gives_pair : Bool
  pub softmax : V → V
  pub topk : ℕ → V → List A × List ℕ
  pub cast : A → A
  -- `F.linear` of a row with the elements of a weight, and `F.silu(gate) * up` of its halves.
  pub linear : List A → V → V
  pub silu_mul : V → V
  pub shared_experts : Option (V → V)

-- `record_access`, whose tier is not used; `is_cached` changes nothing.
unfoldable pub track :
    {W : Type 0} → Bool → ℕ → ℕ → Option (ExpertCache W) → Result (Option (ExpertCache W))
track false layer_id expert_id cache = ok cache
track true layer_id expert_id none = ok none
track true layer_id expert_id (some cache) =
    let (tier, cache') = record_access (layer_id, expert_id) cache in tier >>= λ _. ok (some cache')

module _ {A V : Type 0} (net : Network A V) where
  -- `_routing`
  unfoldable pub routing : ℕ → List V → List (List A) × List (List ℕ)
  routing top_k logits = (
    map (λ row. map net.cast ((net.topk top_k (net.softmax row)).0)) logits,
    map (λ row. (net.topk top_k (net.softmax row)).1) logits,
  )

  unfoldable pub add_shared : List V → List V → List V
  unfolding add_rows
  add_shared hidden output = elim net.shared_experts [
    | none ↦ output
    | some shared ↦ add_rows net.space output (map shared hidden)
  ]

module _ {A V : Type 0} (n : Numbers A) (net : Network A V) where
  -- One expert on its tokens.
  unfoldable pub expert_rows : ExpertWrapper A → List V → Result (List V)
  unfolding get_weight
  expert_rows expert tokens = do
    w13 ← get_weight n "w13" expert
    let activated = map net.silu_mul (map (net.linear w13) tokens)
    w2 ← get_weight n "w2" expert
    ok (map (net.linear w2) activated)

module _ {A V W : Type 0} (n : Numbers A) (net : Network A V) where
  -- The body of the loop over the experts, for one slot: `continue` where no token has chosen the
  -- expert, or the layer has no such expert.
  unfoldable pub visit :
      MoeLut A W
      → List V
      → List ℕ
      → List A
      → ℕ
      → List V × Option (ExpertCache W)
      → Result (List V × Option (ExpertCache W))
  unfolding any select add_at scale_rows track expert_rows
  visit m hidden expert_indices weights expert_id (output, cache) =
      let mask = map (λ i. i == expert_id) expert_indices in
      elim (any mask) [
        | false ↦ ok (output, cache)
        | true ↦ elim (get_elem? m.experts expert_id) [
          | none ↦ ok (output, cache)
          | some expert ↦ do
            tracked ← track m.progressive_enabled m.layer_id expert_id cache
            expert_out ← expert_rows n net expert (select mask hidden)
            ok (
              add_at net.space mask output (scale_rows net.space (select mask weights) expert_out),
              tracked,
            )
        ]
      ]

  unfoldable pub visit_all :
      MoeLut A W
      → List V
      → List ℕ
      → List A
      → List ℕ
      → List V × Option (ExpertCache W)
      → Result (List V × Option (ExpertCache W))
  unfolding visit
  visit_all m hidden expert_indices weights [] state = ok state
  visit_all m hidden expert_indices weights (expert_id ∷ rest) state =
      visit m hidden expert_indices weights expert_id state
      >>= visit_all m hidden expert_indices weights rest

  -- The loop over the slots. `a` is read past no row's end.
  unfoldable pub slots :
      MoeLut A W
      → A
      → List V
      → List (List A)
      → List (List ℕ)
      → List ℕ
      → List V × Option (ExpertCache W)
      → Result (List V × Option (ExpertCache W))
  unfolding visit_all
  slots m a hidden topk_weights topk_indices [] state = ok state
  slots m a hidden topk_weights topk_indices (k ∷ ks) state =
      visit_all m hidden (map (λ row. get_or row k 0) topk_indices)
        (map (λ row. get_or row k a) topk_weights) (range' 0 m.num_experts) state
      >>= slots m a hidden topk_weights topk_indices ks

  -- The unpacking of the shape is a ValueError unless there are three dimensions. What the gate
  -- gives is handed on as it is, and a pair has no `float` that `_routing` could call.
  unfoldable pub forward : List ℕ → List V → MoeLut A W → Result (List V × MoeLut A W)
  unfolding routing slots add_shared
  forward orig_shape hidden m = do
    require (length orig_shape == 3) value_error
    require (not net.gate_gives_pair) attribute_error
    let (topk_weights, topk_indices) = routing net m.top_k (map net.gate hidden)
    (output, cache) ←
        slots m n.zero hidden topk_weights topk_indices (range' 0 m.top_k)
          (replicate (length hidden) net.space.zero, m.expert_cache)
    ok (add_shared net hidden output, record m { expert_cache = cache })
