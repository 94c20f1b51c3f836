-- ===== src/Progressive/Predict.antt =====
-- The prediction of `ProgressiveExpertCache` from the counts of the next layer.
use mathlib.Core.List.{Perm}
use mathlib.Core.List.Perm
use native.Mathlib.Nat.{mod-lt}
use block_lut.Prelude.{
  ℕ, ◌+◌, ◌%◌, ◌<◌, ◌≡◌, refl, some, false, List, [], ◌∷◌, ◌++◌, map, length, get_elem?, get_or,
  take, min, arith, ◌==◌, take_all, length-map, get_elem?-get_or,
}
use block_lut.Outcome.{ok}
use block_lut.Counter.{Counter, nlargest}
use block_lut.Counter.Largest.{IsFalling, nlargest_lem}
use block_lut.Progressive.{ExpertCache, most_frequent, predict_next_layer}

-- The keys that are returned for a layer, as the head of its items by falling count.
unfoldable pub IsHead : ℕ → Counter → List ℕ → Type 0
IsHead topk frequency keys =
    (picked rest : Counter) × (keys ≡ map (λ (item : ℕ × ℕ). item.0) picked)
    × Perm (picked ++ rest) frequency
    × IsFalling (λ (item : ℕ × ℕ). item.1) (picked ++ rest)
    × (length picked ≡ min topk (length (picked ++ rest)))

most_frequent-IsHead :
    (topk : ℕ) (frequency : Counter)
    → IsHead topk frequency (take topk (most_frequent topk frequency))
unfolding IsHead most_frequent
most_frequent-IsHead topk frequency =
    let picked = nlargest (λ (item : ℕ × ℕ). item.1) topk frequency in
    let (rest, perm, falling, size) = nlargest_lem (λ (item : ℕ × ℕ). item.1) topk frequency in
    (
      picked,
      rest,
      take_all topk (map (λ (item : ℕ × ℕ). item.0) picked)
          (omega (arith, size, length-map (λ (item : ℕ × ℕ). item.0) picked)),
      perm,
      falling,
      size,
    )

nothing : (topk : ℕ) → IsHead topk [] []
unfolding IsHead
nothing topk = ([], [], refl, Perm.refl [], tt, omega arith)

module _ {W : Type 0} (current topk : ℕ) (s : ExpertCache W)
    (nonzero : (s.num_layers == 0) ≡ false) where
  answered :
      (frequency : Counter)
      → get_elem? s.layer_frequency ((current + 1) % s.num_layers) ≡ some frequency
      → (keys : List ℕ) × (predict_next_layer current topk s
          ≡ ok ((current + 1) % s.num_layers, keys))
        × IsHead topk frequency keys
  unfolding predict_next_layer
  answered [] found = ([], rw (predict_next_layer, nonzero, found) refl, nothing topk)
  answered (item ∷ items) found = (
    take topk (most_frequent topk (item ∷ items)),
    rw (predict_next_layer, nonzero, found) refl,
    most_frequent-IsHead topk (item ∷ items),
  )

-- In a cache with at least one layer and a counter for each, the prediction for the layer after
-- `current` (after the last one, the first) succeeds and is the head, cut to `topk`, of the
-- counted experts of that layer in an order of falling count.
pub predict_next_layer-IsHead :
    {W : Type 0} (current topk : ℕ) (s : ExpertCache W)
    → 0 < s.num_layers
    → length s.layer_frequency ≡ s.num_layers
    → (keys : List ℕ) × (predict_next_layer current topk s
        ≡ ok ((current + 1) % s.num_layers, keys))
      × IsHead topk (get_or s.layer_frequency ((current + 1) % s.num_layers) []) keys
predict_next_layer-IsHead current topk s h l =
    answered current topk s (ground arith)
      (get_or s.layer_frequency ((current + 1) % s.num_layers) [])
      (get_elem?-get_or s.layer_frequency ((current + 1) % s.num_layers) []
        (omega (arith, l, mod-lt (current + 1) h)))
