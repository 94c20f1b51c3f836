-- ===== src/Progressive/Store.antt =====
-- What `cache_weights` stores, what it evicts for that, and that it keeps the invariant.
use mathlib.Core.Logic.{ite}
use block_lut.Prelude.{
  ap, ◌≤◌, ◌<◌, ◌≡◌, ◌≢◌, ◌⊎◌, refl, sym, ◌∙◌, none, some, length, arith, leb, Option-cases,
  Bool-cases, inl, inr,
}
use block_lut.Outcome.{ok}
use block_lut.Dict
use block_lut.Dict.{Dict, IsDistinct}
use block_lut.Dict.Laws.{
  get-put, get-modify, get-remove, put-IsDistinct, modify-IsDistinct, length-put_new,
  length-put_old, length-remove, Each-modify,
}
use block_lut.Progressive.{
  Key, key_discrete, ExpertCacheEntry, ExpertCache, get_or_create_entry, change, is_cached, demote,
  drop_cached, make_room, get_cached_weights, store, cache_weights,
}
use block_lut.Progressive.Invariant.{IsValid, create-IsValid, get-create, elsewhere}
use block_lut.Progressive.Evict.{drop_cached-IsValid}
use block_lut.Progressive.Lru.{IsLeastRecent, evict_one_least}

module _ {W : Type 0} where
  module _ (key : Key) (weights : W) {s : ExpertCache W} (v : IsValid s) (e : ExpertCacheEntry W)
      (found : Dict.get key_discrete key s.entries ≡ some e) where
    -- The state after the writes of `cache_weights`.
    abbrev pub stored : ExpertCache W
    stored =
        change key (λ e'. record e' { weights = some weights })
          (record s { cache = Dict.put key_discrete key weights s.cache })

    get-stored : Dict.get key_discrete key stored.cache ≡ some weights
    get-stored = ground (arith, get-put key_discrete key key weights s.cache)

    get-stored_ne :
        (j : Key) → key ≢ j → Dict.get key_discrete j stored.cache ≡ Dict.get key_discrete j s.cache
    get-stored_ne j other = ground (arith, get-put key_discrete j key weights s.cache)

    stored-IsValid :
        length (Dict.put key_discrete key weights s.cache) ≤ s.max_gpu_entries → IsValid stored
    stored-IsValid fits = record {
      room = v.room;
      bounded = fits;
      distinct_entries = modify-IsDistinct key_discrete key _ s.entries v.distinct_entries;
      distinct_cache = put-IsDistinct key_discrete key weights s.cache v.distinct_cache;
      at_entry =
          Each-modify key_discrete _ key _ s.entries
            (λ e' found'.
              let i = v.at_entry key e' found' in
              record {
                own_layer = i.own_layer;
                own_expert = i.own_expert;
                held = sym get-stored;
                tier_bound = i.tier_bound;
                earned = i.earned;
                past = i.past;
              })
            (λ j e' other found'.
              elsewhere (omega arith) (get-stored_ne j other) (v.at_entry j e' found'));
      tracked = λ j h. ground (
        arith,
        get-put key_discrete j key weights s.cache,
        get-modify key_discrete j key (λ e'. record e' { weights = some weights }) s.entries,
        v.tracked j,
      );
    }

  -- What `make_room` leaves: a valid state with the entry, with room for the key, that differs
  -- from the old one at most by a least recently used expert, evicted from a full cache.
  record IsRoom (key : Key) (s s' : ExpertCache W) : Type 0 where
    valid : IsValid s'
    entry : ExpertCacheEntry W
    found : Dict.get key_discrete key s'.entries ≡ some entry
    fits : (w : W) → length (Dict.put key_discrete key w s'.cache) ≤ s'.max_gpu_entries
    change :
        (s' ≡ s)
        ⊎ ((victim : Key) × (Dict.get key_discrete key s.cache ≡ none)
            × (length s.cache ≡ s.max_gpu_entries)
            × IsLeastRecent s victim
            × (s' ≡ drop_cached victim s))

  module _ (key : Key) (s : ExpertCache W) (v : IsValid s) (e : ExpertCacheEntry W)
      (found : Dict.get key_discrete key s.entries ≡ some e) where
    IsRoom-old : (w : W) → Dict.get key_discrete key s.cache ≡ some w → IsRoom key s s
    IsRoom-old w held = record {
      valid = v;
      entry = e;
      found = found;
      fits = λ w'. omega (arith, length-put_old key_discrete key w' w s.cache held, v.bounded);
      change = inl refl;
    }

    IsRoom-left :
        Dict.get key_discrete key s.cache ≡ none
        → length s.cache < s.max_gpu_entries
        → IsRoom key s s
    IsRoom-left absent left = record {
      valid = v;
      entry = e;
      found = found;
      fits = λ w'. omega (arith, length-put_new key_discrete key w' s.cache absent);
      change = inl refl;
    }

    IsRoom-made :
        Dict.get key_discrete key s.cache ≡ none
        → s.max_gpu_entries ≤ length s.cache
        → (victim : Key) → IsLeastRecent s victim
        → IsRoom key s (drop_cached victim s)
    unfolding drop_cached
    IsRoom-made absent full victim least =
        let (w, held) = least.cached in
        let entry_of =
          λ (e' : ExpertCacheEntry W). record e' { weights = none; tier = demote e'.tier } in
        let gone : Dict.get key_discrete key (Dict.remove key_discrete victim s.cache) ≡ none =
          ground (arith, get-remove key_discrete key victim s.cache v.distinct_cache) in
        record {
          valid = drop_cached-IsValid victim v;
          entry = ite (key_discrete victim key) (entry_of e) e;
          found = ground (arith, get-modify key_discrete key victim entry_of s.entries);
          fits = λ w'. omega (
            arith,
            length-put_new key_discrete key w' (Dict.remove key_discrete victim s.cache) gone,
            length-remove key_discrete victim w s.cache held,
            v.bounded,
          );
          change = inr (victim, absent, omega (arith, v.bounded), least, refl);
        }

    make_room-IsRoom : (s' : ExpertCache W) × (make_room key s ≡ (ok tt, s')) × IsRoom key s s'
    unfolding make_room is_cached
    make_room-IsRoom = elim (Option-cases (Dict.get key_discrete key s.cache)) [
      | inr (w, held) ↦ (s, rw (held, make_room, is_cached), IsRoom-old w held)
      | inl absent ↦ elim (Bool-cases (leb s.max_gpu_entries (length s.cache))) [
        | inr left ↦ (s, rw (absent, left, make_room, is_cached), IsRoom-left absent (ground arith))
        | inl full ↦
            let some_cached : 0 < length s.cache = ground (arith, v.room) in
            let (victim, least, done) = evict_one_least s v some_cached in
            (
              drop_cached victim s,
              rw (absent, full, make_room, is_cached) done,
              IsRoom-made absent (ground arith) victim least,
            )
      ]
    ]

  -- What other keys hold after `cache_weights`: what they held, but for at most one least recently
  -- used expert that was evicted because the cache was full and the key was new.
  abbrev pub OthersKept : Key → ExpertCache W → ExpertCache W → Type 0
  OthersKept key s s' =
      ((j : Key) → key ≢ j → get_cached_weights j s' ≡ get_cached_weights j s)
      ⊎ ((victim : Key) × (get_cached_weights key s ≡ none)
          × (length s.cache ≡ s.max_gpu_entries)
          × IsLeastRecent s victim
          × ((j : Key)
              → key ≢ j
              → get_cached_weights j s'
                ≡ ite (key_discrete victim j) none (get_cached_weights j s)))

  others_kept :
      (key : Key) (weights : W) {s s' : ExpertCache W}
      → IsValid s
      → (room : IsRoom key s s')
      → OthersKept key s (stored key weights room.valid room.entry room.found)
  unfolding get_cached_weights drop_cached
  others_kept key weights {s} {s'} v room = elim room.change [
    | inl same ↦ inl (λ j other.
        get-stored_ne key weights room.valid room.entry room.found j other
        ∙ ap (λ t. Dict.get key_discrete j t.cache) same)
    | inr (victim, absent, full, least, dropped) ↦ inr (
      victim,
      absent,
      full,
      least,
      λ j other.
          get-stored_ne key weights room.valid room.entry room.found j other
          ∙ ap (λ t. Dict.get key_discrete j t.cache) dropped
          ∙ get-remove key_discrete j victim s.cache v.distinct_cache,
    )
  ]

  -- On a valid cache `cache_weights` raises nothing, keeps the invariant and stores the weights;
  -- other keys hold what they held, but for at most one least recently used expert, evicted only
  -- if the key was not cached and the cache was full. The key's entry is created first, which
  -- changes nothing that is cached.
  pub cache_weights_stores :
      (to_device : W → W) (key : Key) (weights : W) (s : ExpertCache W)
      → IsValid s
      → (s' : ExpertCache W) × (cache_weights to_device key weights s ≡ (ok tt, s'))
        × IsValid s'
        × (get_cached_weights key s' ≡ some (to_device weights))
        × OthersKept key (get_or_create_entry key s).1 s'
        × ((get_or_create_entry key s).1.cache ≡ s.cache)
  unfolding cache_weights get_cached_weights
  cache_weights_stores to_device key weights s v =
      let s1 = (get_or_create_entry key s).1 in
      let v1 = create-IsValid key s v in
      let (s2, made, room) =
        make_room-IsRoom key s1 v1 (get_or_create_entry key s).0 (get-create key s) in
      let w = to_device weights in
      (
        stored key w room.valid room.entry room.found,
        ap (store key w) made,
        stored-IsValid key w room.valid room.entry room.found (room.fits w),
        get-stored key w room.valid room.entry room.found,
        others_kept key w v1 room,
        unfold get_or_create_entry in ground arith,
      )
