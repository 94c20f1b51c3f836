-- ===== src/MoeLayer/Forward/Mixture.antt =====
-- What the forward pass returns for a token: the weighted sum over the experts that the router
-- has chosen for it, and the output of the shared experts.
use block_lut.Prelude.{ℕ, zero, ◌<◌, ◌≡◌, Option, none, some, List, [], map, length, get_or}
use block_lut.Progressive.{ExpertCache}
use block_lut.Quantizer.Numbers.{Numbers}
use block_lut.Routing.{mixture}
use block_lut.Routing.Adds.{adds}
use block_lut.MoeLayer.Layer.{MoeLut}
use block_lut.MoeLayer.Forward.{Network}
use block_lut.MoeLayer.Forward.Tracking.{Counts}
use block_lut.MoeLayer.Forward.Slots.{HasWeights, expert_value}

module _ {A V W : Type 0} (n : Numbers A) (net : Network A V) (w13 w2 : ℕ → List A) (m : MoeLut A W)
    (has : HasWeights n w13 w2 m) where
  module _ (a : A) (hidden : List V) (topk_weights : List (List A)) (topk_indices : List (List ℕ))
      (as_many : length topk_indices ≡ length hidden)
      (weighed : length topk_weights ≡ length hidden)
      (within : (t k : ℕ)
        → t < length hidden
        → k < m.top_k
        → get_or (get_or topk_indices t []) k 0 < m.num_experts) where
    -- What the token `t` gets for its slot `k`.
    abbrev share : ℕ → ℕ → V
    share t k = net.space.scale (get_or (get_or topk_weights t []) k a) (
        expert_value n net w13 w2 (get_or (get_or topk_indices t []) k 0)
          (get_or hidden t net.space.zero))

    -- The state after the slots `k`, `k + 1`, ..., `left` in all.
    record HasShares (k left : ℕ) (output : List V) (state : List V × Option (ExpertCache W))
        : Type 0 where
      long : length (state.0) ≡ length hidden
      counts : Counts m.layer_id (state.1)
      each :
          (t : ℕ)
          → t < length hidden
          → get_or (state.0) t net.space.zero
            ≡ adds net.space (share t) k left (get_or output t net.space.zero)

  -- The row of a token with what the shared experts add.
  abbrev pub with_shared : V → V → V
  with_shared x row = elim net.shared_experts [
    | none ↦ row
    | some shared ↦ net.space.add row (shared x)
  ]

  -- The row of every token is, from zero, the sum over its choices of the router's weight times
  -- the output of the expert for this token, and then the output of the shared experts.
  abbrev pub HasMixture : List V → List V × MoeLut A W → Type 0
  HasMixture hidden r =
      (t : ℕ)
      → t < length hidden
      → let x = get_or hidden t net.space.zero in
        let (weights, ids) = net.topk m.top_k (net.softmax (net.gate x)) in
        get_or (r.0) t net.space.zero
        ≡ with_shared x (
            mixture net.space (λ i. expert_value n net w13 w2 i x) ids (map net.cast weights)
              net.space.zero)
