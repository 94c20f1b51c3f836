-- ===== src/Experts/Predictor.antt =====
-- `ExpertPredictor` of experts/expert_predictor.py. The weights 0.8 and 0.2 of a score are written
-- 4 and 1, which orders the experts as the exact sums do; the rounding of the floats is left out.
pub mod Spec
pub mod Follows
pub mod Ranking
use mathlib.Core.List.{reverse}
use block_lut.Prelude.{
  ℕ, zero, suc, ◌+◌, ◌-◌, ◌*◌, ◌%◌, none, some, List, [], ◌∷◌, ◌++◌, map, length, get_elem?,
  replicate, drop, set_at, ◌==◌, if◌then◌else◌,
}
use block_lut.Outcome.{Result, ok, raise, index_error, zero_division}
use block_lut.Counter
use block_lut.Counter.{Counter, count, nlargest}

-- (layer_id, expert_ids)
abbrev pub Update : Type 0
Update = ℕ × List ℕ

-- The history holds the oldest update first; `window_size` is its `maxlen`.
pub record ExpertPredictor : Type 0 where
  pub freq_tables : List Counter
  pub history : List Update
  pub window_size : ℕ
  pub num_sparse_layers : ℕ
  pub prefetcher_topk : ℕ

unfoldable pub init : ℕ → ℕ → ℕ → ExpertPredictor
init n_sparse_layers prefetcher_topk window_size = record {
  freq_tables = replicate n_sparse_layers [];
  history = [];
  window_size = window_size;
  num_sparse_layers = n_sparse_layers;
  prefetcher_topk = prefetcher_topk;
}

-- `append` of a deque that holds at most `maxlen` items.
unfoldable pub append_within {ℓ} : {A : Type ℓ} → ℕ → List A → A → List A
append_within maxlen items item =
    let longer = items ++ (item ∷ []) in drop (length longer - maxlen) longer

-- A layer that has no table is an IndexError before anything changes.
unfoldable pub update : Update → ExpertPredictor → Result ExpertPredictor
unfolding append_within
update (layer_id, expert_ids) p = elim (get_elem? p.freq_tables layer_id) [
  | none ↦ raise index_error
  | some table ↦ ok (record p {
    freq_tables = set_at p.freq_tables layer_id (Counter.update expert_ids table);
    history = append_within p.window_size p.history (layer_id, expert_ids);
  })
]

-- The loop over the history, newest update first, of which `left` more are to be counted.
unfoldable pub recent_activated : ℕ → ℕ → Counter → List Update → Counter
recent_activated zero next_layer recent updates = recent
recent_activated (suc left) next_layer recent [] = recent
recent_activated (suc left) next_layer recent ((layer, experts) ∷ updates) =
    if layer == next_layer
    then recent_activated left next_layer (Counter.update experts recent) updates
    else recent_activated (suc left) next_layer recent updates

-- The items of the dictionary `scores`, in the order of the table.
unfoldable pub scores : Counter → Counter → List (ℕ × ℕ)
unfolding count
scores table recent =
    map (λ (item : ℕ × ℕ). (item.0, 4 * count item.0 table + count item.0 recent)) table

unfoldable pub predict_next_layer : ℕ → ExpertPredictor → Result (ℕ × List ℕ)
unfolding recent_activated scores nlargest
predict_next_layer current_layer p =
    if p.num_sparse_layers == 0
    then raise zero_division
    else (let next_layer = (current_layer + 1) % p.num_sparse_layers in
        let recent = recent_activated 5 next_layer [] (reverse p.history) in
        elim (get_elem? p.freq_tables next_layer) [
          | none ↦ raise index_error
          | some table ↦
              let topk = nlargest (λ item. item.1) p.prefetcher_topk (scores table recent) in
              ok (next_layer, map (λ (item : ℕ × ℕ). item.0) topk)
        ])
