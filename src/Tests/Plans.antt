-- ===== src/Tests/Plans.antt =====
-- The planning of the cache: `CalculateProb` over bits, for a recursion that needs no law of
-- arithmetic, and a small trace.
use mathlib.Core.List.{reverse}
use block_lut.Prelude.{
  ℕ, suc, ◌≤◌, ◌≡◌, refl, Bool, true, false, not, ◌&&◌, List, [], ◌∷◌, length, get_or,
}
use block_lut.Outcome.{ok}
use block_lut.Counter
use block_lut.Planning.Trace
use block_lut.Planning.Trace.{Trace, many_batches_data}
use block_lut.Planning.Scalars.{Arithmetic}
use block_lut.Planning.Distribution.{calculate_prob}
use block_lut.Planning.Distribution.Cells.{exactly, calculate_prob-exactly}

abbrev xor : Bool → Bool → Bool
xor true b = not b
xor false b = b

abbrev bits : Arithmetic Bool
bits = record { zero = false; one = true; add = xor; mul = ◌&&◌; sub = xor }

abbrev probs : List Bool
probs = true ∷ false ∷ true ∷ []

calculate_prob-exactly_example :
    (length (calculate_prob bits probs) ≡ suc (length probs))
    × ((i : ℕ)
        → i ≤ length probs
        → get_or (calculate_prob bits probs) i false ≡ exactly bits (reverse probs) i)
calculate_prob-exactly_example = calculate_prob-exactly bits probs

-- Three prompts, two layers, three experts; the third prompt fills no batch of two.
abbrev trace : Trace
trace =
    ((1 ∷ 0 ∷ 2 ∷ []) ∷ (0 ∷ 3 ∷ 0 ∷ []) ∷ [])
    ∷ ((0 ∷ 1 ∷ 1 ∷ []) ∷ (2 ∷ 0 ∷ 0 ∷ []) ∷ [])
    ∷ ((9 ∷ 9 ∷ 9 ∷ []) ∷ (9 ∷ 9 ∷ 9 ∷ []) ∷ [])
    ∷ []

ranks : many_batches_data 2 trace ≡ ok (6 ∷ 3 ∷ 1 ∷ [])
unfolding many_batches_data Trace.all_batches Trace.batch_layers Trace.batch_invocation Trace.index
    Trace.add_lists Counter.sort_onto Counter.insert_item
ranks = refl
