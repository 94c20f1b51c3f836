-- ===== src/Progressive/Invariant.antt =====
-- The invariant of the expert cache, and that the operations of `Progressive` keep it.
use block_lut.Prelude.{
  ℕ, ◌+◌, ◌≤◌, ◌<◌, ◌≡◌, refl, sym, ◌∙◌, none, some, List, length, arith, Option-cases, inl, inr,
}
use block_lut.Dict
use block_lut.Dict.{Dict, IsDistinct}
use block_lut.Dict.Laws.{
  get-put, get-modify, put-IsDistinct, modify-IsDistinct, Each, Each-put, Each-modify,
}
use block_lut.Counter.{Counter}
use block_lut.Progressive.{
  Key, key_discrete, ExpertCacheEntry, ExpertCache, new_entry, get_or_create_entry, change, tier_of,
  demote,
}

pub tier_of-le : (hot warm visits : ℕ) → tier_of hot warm visits ≤ 2
unfolding tier_of
tier_of-le hot warm visits = ground arith

-- A visit more makes no colder.
pub tier_of-suc-le : (hot warm visits : ℕ) → tier_of hot warm (visits + 1) ≤ tier_of hot warm visits
unfolding tier_of
tier_of-suc-le hot warm visits = ground arith

pub demote-le : (tier : ℕ) → tier ≤ 2 → (tier ≤ demote tier) × (demote tier ≤ 2)
unfolding demote
demote-le tier h = ground arith

module _ {W : Type 0} where
  -- The entry of a key: it knows its key, holds what the cache holds, is of a tier, of one no
  -- hotter than its visits give it, and was last accessed in the past.
  pub record IsEntry (hot warm step : ℕ) (cache : Dict Key W) (key : Key) (e : ExpertCacheEntry W)
      : Type 0 where
    pub own_layer : e.layer_id ≡ key.0
    pub own_expert : e.expert_id ≡ key.1
    pub held : e.weights ≡ Dict.get key_discrete key cache
    pub tier_bound : e.tier ≤ 2
    pub earned : tier_of hot warm e.visit_count ≤ e.tier
    pub past : e.last_access_step ≤ step

  abbrev pub EntryIn : ExpertCache W → Key → ExpertCacheEntry W → Type 0
  EntryIn s = IsEntry s.hot_threshold s.warm_threshold s.global_step s.cache

  pub record IsValid (s : ExpertCache W) : Type 0 where
    pub room : 0 < s.max_gpu_entries
    pub bounded : length s.cache ≤ s.max_gpu_entries
    pub distinct_entries : IsDistinct key_discrete s.entries
    pub distinct_cache : IsDistinct key_discrete s.cache
    pub at_entry : Each key_discrete (EntryIn s) s.entries
    -- what is cached is tracked
    pub tracked :
        (key : Key)
        → Dict.get key_discrete key s.entries ≡ none
        → Dict.get key_discrete key s.cache ≡ none

  -- Writing an entry leaves no key untracked that was tracked.
  pub untracked_put :
      (j k : Key) (e : ExpertCacheEntry W) (d : Dict Key (ExpertCacheEntry W))
      → Dict.get key_discrete j (Dict.put key_discrete k e d) ≡ none
      → Dict.get key_discrete j d ≡ none
  untracked_put j k e d h = ground (arith, get-put key_discrete j k e d)

  pub untracked_modify :
      (j k : Key) (f : ExpertCacheEntry W → ExpertCacheEntry W) (d : Dict Key (ExpertCacheEntry W))
      → Dict.get key_discrete j (Dict.modify key_discrete k f d) ≡ none
      → Dict.get key_discrete j d ≡ none
  untracked_modify j k f d h = ground (arith, get-modify key_discrete j k f d)

  pub create-IsValid :
      (key : Key) (s : ExpertCache W) → IsValid s → IsValid (get_or_create_entry key s).1
  unfolding get_or_create_entry
  create-IsValid key s v = elim (Option-cases (Dict.get key_discrete key s.entries)) [
    | inr (e, found) ↦ rw (found, get_or_create_entry) v
    | inl missing ↦
        rw (missing, get_or_create_entry)
          (record {
            room = v.room;
            bounded = v.bounded;
            distinct_entries = put-IsDistinct key_discrete key _ s.entries v.distinct_entries;
            distinct_cache = v.distinct_cache;
            at_entry =
                Each-put key_discrete (EntryIn s) key (new_entry key) s.entries
                  (record {
                    own_layer = refl;
                    own_expert = refl;
                    held = sym (v.tracked key missing);
                    tier_bound = omega arith;
                    earned = tier_of-le _ _ _;
                    past = omega arith;
                  })
                  (λ j w _ h. v.at_entry j w h);
            tracked = λ j h. v.tracked j (untracked_put j key _ s.entries h);
          })
  ]

  -- After `get_or_create_entry` the entry that it returned is the one of the key.
  pub get-create :
      (key : Key) (s : ExpertCache W)
      → Dict.get key_discrete key (get_or_create_entry key s).1.entries
        ≡ some (get_or_create_entry key s).0
  unfolding get_or_create_entry
  get-create key s = ground (arith, get-put key_discrete key key (new_entry key) s.entries)

  -- What a write at another key leaves as it was.
  pub elsewhere :
      {hot warm step step' : ℕ} {d d' : Dict Key W} {key : Key} {e : ExpertCacheEntry W}
      → step ≤ step'
      → Dict.get key_discrete key d' ≡ Dict.get key_discrete key d
      → IsEntry hot warm step d key e
      → IsEntry hot warm step' d' key e
  elsewhere later same i = record {
    own_layer = i.own_layer;
    own_expert = i.own_expert;
    held = i.held ∙ sym same;
    tier_bound = i.tier_bound;
    earned = i.earned;
    past = omega (arith, i.past);
  }

  module _ (key : Key) {s : ExpertCache W} (v : IsValid s) where
    -- A change of the entry of the key that leaves it a proper one.
    pub change-IsValid :
        (f : ExpertCacheEntry W → ExpertCacheEntry W) (frequencies : List Counter) (step : ℕ)
        → s.global_step ≤ step
        → ((e : ExpertCacheEntry W)
            → Dict.get key_discrete key s.entries ≡ some e
            → IsEntry s.hot_threshold s.warm_threshold step s.cache key (f e))
        → IsValid (record (change key f s) { global_step = step; layer_frequency = frequencies })
    change-IsValid f frequencies step later proper = record {
      room = v.room;
      bounded = v.bounded;
      distinct_entries = modify-IsDistinct key_discrete key _ s.entries v.distinct_entries;
      distinct_cache = v.distinct_cache;
      at_entry =
          Each-modify key_discrete _ key _ s.entries proper
            (λ j e other found. elsewhere later refl (v.at_entry j e found));
      tracked = λ j h. v.tracked j (untracked_modify j key _ s.entries h);
    }
