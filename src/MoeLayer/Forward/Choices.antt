-- ===== src/MoeLayer/Forward/Choices.antt =====
-- The choices of the router, and the sum over the slots of a token.
use mathlib.Core.Path.{ap₂}
use block_lut.Prelude.{
  ℕ, zero, suc, ◌+◌, ◌<◌, ◌≡◌, sym, ap, ◌∙◌, List, [], ◌∷◌, map, length, get_or, ltb, leb, ◌&&◌,
  All, if◌then◌else◌, arith, length-map, get_or-map,
}
use block_lut.Routing.{Space, mixture}
use block_lut.Routing.Adds.{adds, adds-mixture}
use block_lut.MoeLayer.Forward.{Network, routing}

-- What torch documents of `topk`, for the logits of `num_experts` experts.
pub record IsRouter {A V : Type 0} (net : Network A V) (num_experts top_k : ℕ) : Type 0 where
  pub as_many : (row : V) → length ((net.topk top_k row).1) ≡ top_k
  pub weighed : (row : V) → length ((net.topk top_k row).0) ≡ top_k
  pub within : (row : V) → All (λ i. i < num_experts) ((net.topk top_k row).1)

pub All→get_or :
    {b : ℕ} (is : List ℕ) (k : ℕ) → All (λ i. i < b) is → k < length is → get_or is k 0 < b
All→get_or [] k h l = absurd (omega arith)
All→get_or (i ∷ is) zero h l = h.0
All→get_or (i ∷ is) (suc k) h l = All→get_or is k h.1 (omega arith)

pub in_range :
    {X : Type 0} (j b : ℕ) (x z : X) → j < b → (if leb 0 j && ltb j (0 + b) then x else z) ≡ x
in_range j b x z h = ground arith

-- The sum by positions is the mixture, for the row's own weights and ids.
pub adds-row :
    {A V : Type 0} (s : Space A V) (expert : ℕ → V) (a : A) (k : ℕ) (ws : List A) (is : List ℕ)
    (weights : List A) (ids : List ℕ) (row : V)
    → ws ≡ weights
    → is ≡ ids
    → length weights ≡ k
    → length ids ≡ k
    → row ≡ s.zero
    → adds s (λ j. s.scale (get_or ws j a) (expert (get_or is j 0))) 0 k row
      ≡ mixture s expert ids weights s.zero
adds-row s expert a k ws is weights ids row same_weights same_ids long_weights long_ids none_yet =
    ap₂ (λ ws' is'. adds s (λ j. s.scale (get_or ws' j a) (expert (get_or is' j 0))) 0 k row)
      same_weights same_ids
    ∙ ap₂ (adds s (λ j. s.scale (get_or weights j a) (expert (get_or ids j 0))) 0) (sym long_ids)
        none_yet
    ∙ adds-mixture s expert ids weights a s.zero (long_weights ∙ sym long_ids)

-- The rows of `_routing`, one by one.
module _ {A V : Type 0} (net : Network A V) (k : ℕ) (hidden : List V) where
  -- What the router makes of a row.
  abbrev pub choice : V → List A × List ℕ
  choice x = net.topk k (net.softmax (net.gate x))

  pub routing_ids :
      (t : ℕ)
      → t < length hidden
      → get_or ((routing net k (map net.gate hidden)).1) t []
        ≡ (choice (get_or hidden t net.space.zero)).1
  unfolding routing
  routing_ids t l =
      get_or-map (λ (row : V). (net.topk k (net.softmax row)).1) (map net.gate hidden) t
        (net.gate net.space.zero) [] (omega (arith, length-map net.gate hidden))
      ∙ ap (λ row. (net.topk k (net.softmax row)).1)
          (get_or-map net.gate hidden t net.space.zero (net.gate net.space.zero) l)

  pub routing_weights :
      (t : ℕ)
      → t < length hidden
      → get_or ((routing net k (map net.gate hidden)).0) t []
        ≡ map net.cast ((choice (get_or hidden t net.space.zero)).0)
  unfolding routing
  routing_weights t l =
      get_or-map (λ (row : V). map net.cast ((net.topk k (net.softmax row)).0))
        (map net.gate hidden) t (net.gate net.space.zero) []
        (omega (arith, length-map net.gate hidden))
      ∙ ap (λ row. map net.cast ((net.topk k (net.softmax row)).0))
          (get_or-map net.gate hidden t net.space.zero (net.gate net.space.zero) l)

  pub length-routing :
      (length ((routing net k (map net.gate hidden)).0) ≡ length hidden)
      × (length ((routing net k (map net.gate hidden)).1) ≡ length hidden)
  unfolding routing
  length-routing = (
    length-map (λ (row : V). map net.cast ((net.topk k (net.softmax row)).0)) (map net.gate hidden)
        ∙ length-map net.gate hidden,
    length-map (λ (row : V). (net.topk k (net.softmax row)).1) (map net.gate hidden)
        ∙ length-map net.gate hidden,
  )
