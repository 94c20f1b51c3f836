-- ===== src/Tests/ExpertCache.antt =====
-- The progressive expert cache on a short run.
use native.Mathlib.Decide.{ℕ_discrete}
use block_lut.Prelude.{
  ℕ, ◌+◌, ◌%◌, get_or, ◌<◌, ◌≡◌, refl, none, some, List, [], ◌∷◌, length, arith,
}
use block_lut.Outcome.{ok, raise, index_error}
use block_lut.Dict
use block_lut.Counter
use block_lut.Progressive
use block_lut.Progressive.Predict.{IsHead, predict_next_layer-IsHead}
use block_lut.Progressive.{
  Key, key_discrete, ExpertCache, init, get_or_create_entry, record_access, evict_one, drop_cached,
  cache_weights, get_cached_weights, evict, predict_next_layer,
}
use block_lut.Progressive.Invariant.{IsValid}
use block_lut.Progressive.Lru.{IsLeastRecent, evict_one_least}
use block_lut.Progressive.Store.{OthersKept, cache_weights_stores}
use block_lut.Progressive.Runs.{Call, access, keep, step, run, run-init-IsValid}

abbrev to_gpu : ℕ → ℕ
to_gpu w = w

-- Two layers, a cache of two experts, warm from 1 visit and hot from 2.
abbrev fresh : ExpertCache ℕ
fresh = init 2 4 2 2 1

abbrev calls : List (Call ℕ)
calls =
    access (0, 1)
    ∷ keep (0, 1) 71
    ∷ access (0, 2)
    ∷ keep (0, 2) 72
    ∷ access (0, 1)
    ∷ access (5, 0)
    ∷ []

busy : ExpertCache ℕ
busy = run to_gpu calls fresh

program : Unit {0}
unfolding busy run step init record_access cache_weights evict get_cached_weights key_discrete
    ℕ_discrete Dict.get Dict.put Dict.modify Dict.remove
program = tt

busy-IsValid : IsValid busy
unfolding busy
busy-IsValid = run-init-IsValid to_gpu calls 2 4 2 2 1 (omega arith)

-- The call for layer 5 raised, and its visit was recorded before.
out_of_range : (record_access (5, 0) busy).0 ≡ raise index_error
unfolding program
out_of_range = refl

-- The expert that was used last stays.
third_evicts :
    (get_cached_weights (0, 1) (step to_gpu (keep (1, 3) 73) busy) ≡ some 71)
    × (get_cached_weights (0, 2) (step to_gpu (keep (1, 3) 73) busy) ≡ none)
    × (get_cached_weights (1, 3) (step to_gpu (keep (1, 3) 73) busy) ≡ some 73)
unfolding program
third_evicts = (refl, refl, refl)

some_cached : 0 < length busy.cache
unfolding program
some_cached = omega arith

run-init-IsValid_example : IsValid (run to_gpu calls (init 2 4 2 2 1))
run-init-IsValid_example = run-init-IsValid to_gpu calls 2 4 2 2 1 (omega arith)

evict_one_least_example :
    (key : Key) × IsLeastRecent busy key × (evict_one busy ≡ (ok tt, drop_cached key busy))
evict_one_least_example = evict_one_least busy busy-IsValid some_cached

cache_weights_stores_example :
    (s' : ExpertCache ℕ) × (cache_weights to_gpu (1, 3) 73 busy ≡ (ok tt, s'))
    × IsValid s'
    × (get_cached_weights (1, 3) s' ≡ some 73)
    × OthersKept (1, 3) (get_or_create_entry (1, 3) busy).1 s'
    × ((get_or_create_entry (1, 3) busy).1.cache ≡ busy.cache)
cache_weights_stores_example = cache_weights_stores to_gpu (1, 3) 73 busy busy-IsValid

two_layers : length busy.layer_frequency ≡ busy.num_layers
unfolding program
two_layers = refl

-- Layer 0 is next after layer 1; expert 1 was visited twice, expert 2 once.
predicts_most_frequent : (predict_next_layer 1 1 busy) ≡ ok (0, 1 ∷ [])
unfolding program predict_next_layer Progressive.most_frequent Counter.nlargest Counter.sort_onto
    Counter.insert_item Counter.increment Counter.count
predicts_most_frequent = refl

positive : 0 < busy.num_layers
unfolding program
positive = omega arith

predict_next_layer-IsHead_example :
    (keys : List ℕ) × (predict_next_layer 1 1 busy ≡ ok ((1 + 1) % busy.num_layers, keys))
    × IsHead 1 (get_or busy.layer_frequency ((1 + 1) % busy.num_layers) []) keys
predict_next_layer-IsHead_example = predict_next_layer-IsHead 1 1 busy positive two_layers
