-- ===== src/Progressive/Runs.antt =====
-- Any sequence of calls of the cache's methods, from a new cache on.
use block_lut.Prelude.{
  ℕ, ◌<◌, ◌≡◌, refl, subst, none, some, List, [], ◌∷◌, arith, Option-cases, inl, inr,
}
use block_lut.Dict
use block_lut.Dict.{Dict}
use block_lut.Dict.Laws.{get-map_values, map_values-IsDistinct}
use block_lut.Progressive.{
  Key, key_discrete, ExpertCacheEntry, ExpertCache, init, record_access, get_tier, evict,
  cache_weights, clear,
}
use block_lut.Progressive.Invariant.{IsValid, EntryIn, create-IsValid}
use block_lut.Progressive.Access.{record_access-IsValid}
use block_lut.Progressive.Evict.{evict-IsValid}
use block_lut.Progressive.Store.{cache_weights_stores}

-- The methods that may change the cache.
pub data Call (W : Type 0) : Type 0 where
  access ask_tier drop : Key → Call W
  keep : Key → W → Call W
  drop_all : Call W

module _ {W : Type 0} (to_device : W → W) where
  -- A call leaves its state also where it raises.
  unfoldable pub step : Call W → ExpertCache W → ExpertCache W
  step (access key) s = (record_access key s).1
  step (ask_tier key) s = (get_tier key s).1
  step (drop key) s = (evict key s).1
  step (keep key weights) s = (cache_weights to_device key weights s).1
  step drop_all s = clear s

  unfoldable pub run : List (Call W) → ExpertCache W → ExpertCache W
  run [] s = s
  run (c ∷ calls) s = run calls (step c s)

  emptied :
      (s : ExpertCache W)
      → IsValid s
      → (key : Key) (e : ExpertCacheEntry W) → Dict.get key_discrete key (clear s).entries ≡ some e
      → EntryIn (clear s) key e
  unfolding clear Dict.get
  emptied s v key e found = elim (Option-cases (Dict.get key_discrete key s.entries)) [
    | inl missing ↦ absurd (
        ground (
          arith,
          get-map_values key_discrete key
              (λ (e' : ExpertCacheEntry W). record e' { weights = none }) s.entries,
        ))
    | inr (e', there) ↦
        let i = v.at_entry key e' there in
        let same : record e' { weights = none } ≡ e = ground (
          arith,
          get-map_values key_discrete key
              (λ (e'' : ExpertCacheEntry W). record e'' { weights = none }) s.entries,
        ) in
        subst (EntryIn (clear s) key) same (record {
          own_layer = i.own_layer;
          own_expert = i.own_expert;
          held = refl;
          tier_bound = i.tier_bound;
          earned = i.earned;
          past = i.past;
        })
  ]

  clear-IsValid : {s : ExpertCache W} → IsValid s → IsValid (clear s)
  unfolding clear Dict.get
  clear-IsValid {s} v = record {
    room = v.room;
    bounded = omega arith;
    distinct_entries = map_values-IsDistinct key_discrete _ s.entries v.distinct_entries;
    distinct_cache = tt;
    at_entry = λ key e found. emptied s v key e found;
    tracked = λ key h. refl;
  }

  step-IsValid : (c : Call W) (s : ExpertCache W) → IsValid s → IsValid (step c s)
  unfolding step get_tier
  step-IsValid (access key) s v = record_access-IsValid key v
  step-IsValid (ask_tier key) s v = create-IsValid key s v
  step-IsValid (drop key) s v = evict-IsValid key v
  step-IsValid (keep key weights) s v =
      let (_, made, valid, _, _, _) = cache_weights_stores to_device key weights s v in
      rw (made, step) valid
  step-IsValid drop_all s v = clear-IsValid v

  run-IsValid : (calls : List (Call W)) (s : ExpertCache W) → IsValid s → IsValid (run calls s)
  unfolding run
  run-IsValid [] s v = v
  run-IsValid (c ∷ calls) s v = run-IsValid calls (step c s) (step-IsValid c s v)

  init-IsValid :
      (num_layers num_experts max_gpu_entries hot_threshold warm_threshold : ℕ)
      → 0 < max_gpu_entries
      → IsValid (init {W = W} num_layers num_experts max_gpu_entries hot_threshold warm_threshold)
  unfolding init Dict.get
  init-IsValid layers experts room hot warm h = record {
    room = h;
    bounded = omega arith;
    distinct_entries = tt;
    distinct_cache = tt;
    at_entry = λ key e found. absurd (cc found);
    tracked = λ key _. refl;
  }

  -- Whatever methods are called on a new cache of positive capacity, in whatever order and with
  -- exceptions or without: the cache holds no more experts than its capacity; every key stands
  -- once; every cached key has an entry; and each entry names its key, holds exactly what the
  -- cache holds for it, and has a tier of at most 2 that is no hotter than its visits give it.
  pub run-init-IsValid :
      (calls : List (Call W))
      (num_layers num_experts max_gpu_entries hot_threshold warm_threshold : ℕ)
      → 0 < max_gpu_entries
      → IsValid
          (run calls (init num_layers num_experts max_gpu_entries hot_threshold warm_threshold))
  run-init-IsValid calls layers experts room hot warm h =
      run-IsValid calls _ (init-IsValid layers experts room hot warm h)
