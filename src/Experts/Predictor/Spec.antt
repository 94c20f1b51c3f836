-- ===== src/Experts/Predictor/Spec.antt =====
-- The activations that a sequence of updates reports.
use mathlib.Core.List.{reverse}
use block_lut.Prelude.{ℕ, ◌+◌, ◌-◌, List, [], ◌∷◌, length, take, drop, ◌==◌, if◌then◌else◌}
use block_lut.Counter.Laws.{occurrences}
use block_lut.Experts.Predictor.{Update}

-- What the updates of one layer report, in order.
abbrev pub of_layer : ℕ → List Update → List (List ℕ)
of_layer layer [] = []
of_layer layer ((l, experts) ∷ updates) =
    if l == layer then experts ∷ of_layer layer updates else of_layer layer updates

abbrev pub total : ℕ → List (List ℕ) → ℕ
total e [] = 0
total e (experts ∷ rest) = occurrences e experts + total e rest

-- How often a layer activated an expert.
abbrev pub activations : ℕ → ℕ → List Update → ℕ
activations layer e updates = total e (of_layer layer updates)

abbrev pub latest {ℓ} : {A : Type ℓ} → ℕ → List A → List A
latest n items = drop (length items - n) items

-- The same in the last five updates of the layer that the window holds.
abbrev pub recent_activations : ℕ → ℕ → ℕ → List Update → ℕ
recent_activations window layer e updates =
    total e (take 5 (of_layer layer (reverse (latest window updates))))
