-- ===== src/Planning/Trace.antt =====
-- `ObtainDistFromTrace`, up to the division by the sum: how often each rank of an expert is
-- invoked. A trace is a list of prompts, each with a row of invocations by expert for each layer.
pub mod Ranks
use block_lut.Prelude.{
  ℕ, zero, suc, ◌+◌, ◌*◌, ◌/◌, none, some, List, [], ◌∷◌, length, get_elem?, replicate, range',
  ◌==◌, if◌then◌else◌,
}
use block_lut.Outcome.{Result, ok, raise, index_error, zero_division, ◌>>=◌}
use block_lut.Counter.{sort_onto}

abbrev pub Trace : Type 0
Trace = List (List (List ℕ))

-- `[a + b for a, b in zip(...)]`
unfoldable pub add_lists : List ℕ → List ℕ → List ℕ
add_lists [] ys = []
add_lists (x ∷ xs) [] = []
add_lists (x ∷ xs) (y ∷ ys) = (x + y) ∷ add_lists xs ys

-- `xs[i]`
unfoldable pub index : {A : Type 0} → List A → ℕ → Result A
index xs i = elim (get_elem? xs i) [ none ↦ raise index_error | some x ↦ ok x ]

-- The loop over the prompts of a batch, from prompt `first` on.
unfoldable pub batch_invocation : Trace → ℕ → ℕ → ℕ → List ℕ → Result (List ℕ)
unfolding index add_lists
batch_invocation trace layer_id first zero in_batch = ok in_batch
batch_invocation trace layer_id first (suc left) in_batch = do
  prompt ← index trace first
  row ← index prompt layer_id
  batch_invocation trace layer_id (suc first) left (add_lists in_batch row)

-- The loop over the layers: the invocations of a batch are sorted, the most frequent first.
unfoldable pub batch_layers : Trace → ℕ → ℕ → ℕ → List ℕ → List ℕ → Result (List ℕ)
unfolding batch_invocation sort_onto
batch_layers trace num_experts batch_size first [] batch_data = ok batch_data
batch_layers trace num_experts batch_size first (layer_id ∷ layers) batch_data = do
  in_batch ← batch_invocation trace layer_id first batch_size (replicate num_experts 0)
  batch_layers trace num_experts batch_size first layers
      (add_lists batch_data (sort_onto (λ n. n) [] in_batch))

-- The loop over the batches.
unfoldable pub all_batches : Trace → ℕ → ℕ → ℕ → List ℕ → List ℕ → Result (List ℕ)
unfolding batch_layers
all_batches trace num_layers num_experts batch_size [] many = ok many
all_batches trace num_layers num_experts batch_size (b ∷ batches) many = do
  batch_data ←
      batch_layers trace num_experts batch_size (b * batch_size) (range' 0 num_layers)
        (replicate num_experts 0)
  all_batches trace num_layers num_experts batch_size batches (add_lists many batch_data)

-- `many_batches_data`
unfoldable pub many_batches_data : ℕ → Trace → Result (List ℕ)
unfolding all_batches
many_batches_data batch_size trace = do
  first ← index trace 0
  layer ← index first 0
  if batch_size == 0
      then raise zero_division
      else all_batches trace (length first) (length layer) batch_size
          (range' 0 (length trace / batch_size)) (replicate (length layer) 0)
