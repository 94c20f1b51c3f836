-- ===== src/Progressive/Evict.antt =====
-- `evict` keeps the invariant, and `_evict_one` evicts the least recently used expert.
use block_lut.Prelude.{arith, Bool-cases, inl, inr}
use block_lut.Dict.Laws.{
  get-remove, modify-IsDistinct, remove-IsDistinct, length-remove-le, Each-modify,
}
use block_lut.Progressive.{Key, key_discrete, ExpertCache, is_cached, drop_cached, evict}
use block_lut.Progressive.Invariant.{
  demote-le, IsValid, untracked_modify, create-IsValid, elsewhere,
}

module _ {W : Type 0} where
  module _ (key : Key) {s : ExpertCache W} (v : IsValid s) where
    pub drop_cached-IsValid : IsValid (drop_cached key s)
    unfolding drop_cached
    drop_cached-IsValid = record {
      room = v.room;
      bounded = omega (arith, length-remove-le key_discrete key s.cache, v.bounded);
      distinct_entries = modify-IsDistinct key_discrete key _ s.entries v.distinct_entries;
      distinct_cache = remove-IsDistinct key_discrete key s.cache v.distinct_cache;
      at_entry =
          Each-modify key_discrete _ key _ s.entries
            (λ e found.
              let i = v.at_entry key e found in
              record {
                own_layer = i.own_layer;
                own_expert = i.own_expert;
                held = ground (arith, get-remove key_discrete key key s.cache v.distinct_cache);
                tier_bound = (demote-le e.tier i.tier_bound).1;
                earned = omega (arith, demote-le e.tier i.tier_bound, i.earned);
                past = i.past;
              })
            (λ j e other found.
              elsewhere (omega arith)
                (ground (arith, get-remove key_discrete j key s.cache v.distinct_cache))
                (v.at_entry j e found));
      tracked = λ j h. ground (
        arith,
        get-remove key_discrete j key s.cache v.distinct_cache,
        v.tracked j (untracked_modify j key _ s.entries h),
      );
    }

  pub evict-IsValid : (key : Key) {s : ExpertCache W} → IsValid s → IsValid (evict key s).1
  unfolding evict
  evict-IsValid key {s} v = elim (Bool-cases (is_cached key s)) [
    | inl cached ↦ rw (cached, evict) (drop_cached-IsValid key (create-IsValid key s v))
    | inr absent ↦ rw (absent, evict) v
  ]
