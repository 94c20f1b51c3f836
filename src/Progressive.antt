-- ===== src/Progressive.antt =====
-- `ProgressiveExpertCache` of vllm_lut/progressive_cache.py. The weights of an expert are of a type
-- `W` that the cache does not look into; `to_device` stands for `.to(self.device)` on each tensor.
-- A method returns its result, or the exception, beside the state that it leaves.
pub mod Invariant
pub mod Access
pub mod Evict
pub mod Lru
pub mod Store
pub mod Runs
pub mod Predict
use native.Mathlib.Decide.{ℕ_discrete}
use mathlib.Core.Logic.{ite}
use mathlib.Core.Option
use block_lut.Prelude.{
  ℕ, zero, suc, ◌+◌, ◌%◌, Bool, true, false, not, ◌&&◌, Option, none, some, List, [], ◌∷◌, map,
  length, get_elem?, replicate, set_at, take, ltb, leb, ◌==◌, if◌then◌else◌,
}
use block_lut.Outcome.{Result, ok, raise, index_error, key_error, zero_division, ◌>>=◌}
use block_lut.Dict
use block_lut.Dict.{Dict}
use block_lut.Counter
use block_lut.Counter.{Counter, nlargest}

-- (layer_id, expert_id)
abbrev pub Key : Type 0
Key = ℕ × ℕ

unfoldable pub key_discrete : Discrete Key
unfolding ℕ_discrete
key_discrete = hlevel ℕ_discrete

pub record ExpertCacheEntry (W : Type 0) : Type 0 where
  pub layer_id : ℕ
  pub expert_id : ℕ
  pub weights : Option W
  pub tier : ℕ
  pub visit_count : ℕ
  pub last_access_step : ℕ

pub record ExpertCache (W : Type 0) : Type 0 where
  pub num_layers : ℕ
  pub num_experts : ℕ
  pub max_gpu_entries : ℕ
  pub hot_threshold : ℕ
  pub warm_threshold : ℕ
  pub entries : Dict Key (ExpertCacheEntry W)
  pub cache : Dict Key W
  pub global_step : ℕ
  pub layer_frequency : List Counter

-- The keys of `most_common(topk)`.
unfoldable pub most_frequent : ℕ → Counter → List ℕ
most_frequent topk frequency =
    map (λ (item : ℕ × ℕ). item.0) (nlargest (λ item. item.1) topk frequency)

-- The tier that the thresholds give to a number of visits.
unfoldable pub tier_of : ℕ → ℕ → ℕ → ℕ
tier_of hot_threshold warm_threshold visits =
    if leb hot_threshold visits then 0 else if leb warm_threshold visits then 1 else 2

-- The demotion of an evicted expert.
unfoldable pub demote : ℕ → ℕ
demote tier = if tier == 0 then 1 else if tier == 1 then 2 else tier

pub record Stats : Type 0 where
  pub total_entries : ℕ
  pub cached_entries : ℕ
  pub max_cache_size : ℕ
  pub hot : ℕ
  pub warm : ℕ
  pub cold : ℕ
  pub global_steps : ℕ

module _ {W : Type 0} where
  unfoldable pub init : ℕ → ℕ → ℕ → ℕ → ℕ → ExpertCache W
  init num_layers num_experts max_gpu_entries hot_threshold warm_threshold = record {
    num_layers = num_layers;
    num_experts = num_experts;
    max_gpu_entries = max_gpu_entries;
    hot_threshold = hot_threshold;
    warm_threshold = warm_threshold;
    entries = [];
    cache = [];
    global_step = 0;
    layer_frequency = replicate num_layers [];
  }

  -- `ExpertCacheEntry(layer_id, expert_id)`
  abbrev pub new_entry : Key → ExpertCacheEntry W
  new_entry (layer_id, expert_id) = record {
    layer_id = layer_id;
    expert_id = expert_id;
    weights = none;
    tier = 2;
    visit_count = 0;
    last_access_step = 0;
  }

  unfoldable pub get_or_create_entry : Key → ExpertCache W → ExpertCacheEntry W × ExpertCache W
  get_or_create_entry key s = elim (Dict.get key_discrete key s.entries) [
    | none ↦
        (new_entry key, record s { entries = Dict.put key_discrete key (new_entry key) s.entries })
    | some entry ↦ (entry, s)
  ]

  -- An assignment to a field of the entry object of a key.
  abbrev pub change :
      Key → (ExpertCacheEntry W → ExpertCacheEntry W) → ExpertCache W → ExpertCache W
  change key f s = record s { entries = Dict.modify key_discrete key f s.entries }

  -- `record_access`, from the entry that `_get_or_create_entry` returned.
  unfoldable pub record_visit : Key → ExpertCacheEntry W → ExpertCache W → Result ℕ × ExpertCache W
  unfolding tier_of
  record_visit (layer_id, expert_id) entry s =
      let visits = entry.visit_count + 1 in
      let s1 =
        change (layer_id, expert_id)
          (λ e. record e { visit_count = visits; last_access_step = s.global_step }) s in
      elim (get_elem? s.layer_frequency layer_id) [
        | none ↦ (raise index_error, s1)
        | some frequency ↦
            let s2 = record s1 {
              layer_frequency =
                  set_at s.layer_frequency layer_id (Counter.increment expert_id frequency);
              global_step = s.global_step + 1;
            } in
            let tier = tier_of s.hot_threshold s.warm_threshold visits in
            (ok tier, change (layer_id, expert_id) (λ e. record e { tier = tier }) s2)
      ]

  unfoldable pub record_access : Key → ExpertCache W → Result ℕ × ExpertCache W
  unfolding get_or_create_entry record_visit
  record_access key s = let (entry, s1) = get_or_create_entry key s in record_visit key entry s1

  unfoldable pub get_tier : Key → ExpertCache W → ℕ × ExpertCache W
  unfolding get_or_create_entry
  get_tier key s = let (entry, s1) = get_or_create_entry key s in (entry.tier, s1)

  unfoldable pub is_cached : Key → ExpertCache W → Bool
  is_cached key s = elim (Dict.get key_discrete key s.cache) [ none ↦ false | some _ ↦ true ]

  unfoldable pub get_cached_weights : Key → ExpertCache W → Option W
  get_cached_weights key s = Dict.get key_discrete key s.cache

  -- `evict`, of a key that is cached.
  unfoldable pub drop_cached : Key → ExpertCache W → ExpertCache W
  unfolding demote
  drop_cached key s =
      let s1 = change key (λ e. record e { weights = none; tier = demote e.tier }) s in
      record s1 { cache = Dict.remove key_discrete key s1.cache }

  unfoldable pub evict : Key → ExpertCache W → Bool × ExpertCache W
  unfolding get_or_create_entry is_cached drop_cached
  evict key s =
      let (_, s1) = get_or_create_entry key s in
      if is_cached key s then (true, drop_cached key s1) else (false, s)

  abbrev pub last_access : ExpertCache W → Key → Result ℕ
  last_access s key = elim (Dict.get key_discrete key s.entries) [
    | none ↦ raise key_error
    | some entry ↦ ok entry.last_access_step
  ]

  -- `min(keys, key=...)`: of the keys that are left, one replaces the best so far only if its step
  -- is smaller.
  unfoldable pub least_recent : ExpertCache W → Key → ℕ → Dict Key W → Result Key
  least_recent s best step [] = ok best
  least_recent s best step ((key, _) ∷ rest) = do
    accessed ← last_access s key
    let nearer = ltb accessed step
    least_recent s (if nearer then key else best) (if nearer then accessed else step) rest

  unfoldable pub lru_key : ExpertCache W → Key → Dict Key W → Result Key
  unfolding least_recent
  lru_key s first rest = do accessed ← last_access s first; least_recent s first accessed rest

  abbrev pub evict_from : ExpertCache W → Dict Key W → Result (Unit {0}) × ExpertCache W
  evict_from s [] = (ok tt, s)
  evict_from s ((first, w) ∷ rest) = elim (lru_key s first rest) [
    | raise e ↦ (raise e, s)
    | ok key ↦ (ok tt, (evict key s).1)
  ]

  unfoldable pub evict_one : ExpertCache W → Result (Unit {0}) × ExpertCache W
  unfolding lru_key evict
  evict_one s = evict_from s s.cache

  abbrev pub store : Key → W → Result (Unit {0}) × ExpertCache W → Result (Unit {0}) × ExpertCache W
  store key weights (raise e, s) = (raise e, s)
  store key weights (ok _, s) = (
    ok tt,
    change key (λ e. record e { weights = some weights })
        (record s { cache = Dict.put key_discrete key weights s.cache }),
  )

  -- The check for a full cache.
  unfoldable pub make_room : Key → ExpertCache W → Result (Unit {0}) × ExpertCache W
  unfolding is_cached evict_one
  make_room key s =
      if not (is_cached key s) && leb s.max_gpu_entries (length s.cache)
      then evict_one s
      else (ok tt, s)

  unfoldable pub cache_weights :
      (W → W) → Key → W → ExpertCache W → Result (Unit {0}) × ExpertCache W
  unfolding get_or_create_entry make_room
  cache_weights to_device key weights s =
      let (_, s1) = get_or_create_entry key s in store key (to_device weights) (make_room key s1)

  unfoldable pub clear : ExpertCache W → ExpertCache W
  clear s = record s {
    entries = Dict.map_values (λ entry. record entry { weights = none }) s.entries;
    cache = [];
  }

  -- The numbers of entries of each tier.
  unfoldable pub tier_counts : Dict Key (ExpertCacheEntry W) → Counter → Counter
  tier_counts [] counts = counts
  tier_counts ((_, entry) ∷ entries) counts =
      tier_counts entries (Counter.increment entry.tier counts)

  unfoldable pub get_stats : ExpertCache W → Stats
  unfolding tier_counts
  get_stats s =
      let counts = tier_counts s.entries [] in
      record {
        total_entries = length s.entries;
        cached_entries = length s.cache;
        max_cache_size = s.max_gpu_entries;
        hot = Counter.count 0 counts;
        warm = Counter.count 1 counts;
        cold = Counter.count 2 counts;
        global_steps = s.global_step;
      }

  -- `% 0` is a ZeroDivisionError. The cut to `topk` after `most_common(topk)` is kept.
  unfoldable pub predict_next_layer : ℕ → ℕ → ExpertCache W → Result (ℕ × List ℕ)
  unfolding most_frequent
  predict_next_layer current_layer topk s =
      if s.num_layers == 0
      then raise zero_division
      else (let next_layer = (current_layer + 1) % s.num_layers in
          elim (get_elem? s.layer_frequency next_layer) [
            | none ↦ raise index_error
            | some [] ↦ ok (next_layer, [])
            | some frequency ↦ ok (next_layer, take topk (most_frequent topk frequency))
          ])
