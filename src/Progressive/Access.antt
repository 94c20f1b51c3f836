-- ===== src/Progressive/Access.antt =====
-- `record_access` keeps the invariant of the cache, also where the layer is out of range.
use block_lut.Prelude.{
  set_at, ℕ, ◌+◌, ◌≤◌, ◌≡◌, some, List, arith, Option-cases, inl, inr, get_elem?,
}
use block_lut.Dict
use block_lut.Dict.{Dict, IsDistinct}
use block_lut.Dict.Laws.{get-modify}
use block_lut.Counter.{Counter, increment}
use block_lut.Progressive.{
  Key, key_discrete, ExpertCacheEntry, ExpertCache, get_or_create_entry, change, tier_of,
  record_access, record_visit,
}
use block_lut.Progressive.Invariant.{
  tier_of-le, tier_of-suc-le, IsEntry, IsValid, create-IsValid, get-create, change-IsValid,
}

module _ {W : Type 0} where
  module _ (key : Key) {s : ExpertCache W} (v : IsValid s) (e : ExpertCacheEntry W)
      (found : Dict.get key_discrete key s.entries ≡ some e) where
    abbrev visited : ExpertCacheEntry W → ExpertCacheEntry W
    visited e' = record e' { visit_count = e.visit_count + 1; last_access_step = s.global_step }

    visited-IsEntry :
        (step : ℕ)
        → s.global_step ≤ step
        → (e' : ExpertCacheEntry W) → Dict.get key_discrete key s.entries ≡ some e'
        → IsEntry s.hot_threshold s.warm_threshold step s.cache key (visited e')
    visited-IsEntry step later e' found' =
        let i = v.at_entry key e' found' in
        let same : e'.visit_count ≡ e.visit_count = ground arith in
        record {
          own_layer = i.own_layer;
          own_expert = i.own_expert;
          held = i.held;
          tier_bound = i.tier_bound;
          earned = omega (
            arith,
            tier_of-suc-le s.hot_threshold s.warm_threshold e.visit_count,
            rw same at i.earned,
          );
          past = later;
        }

    module _ (frequencies : List Counter) where
      abbrev after_visit : ExpertCache W
      after_visit = record (change key visited s) {
        global_step = s.global_step + 1;
        layer_frequency = frequencies;
      }

      after_visit-IsValid : IsValid after_visit
      after_visit-IsValid =
          change-IsValid key v visited frequencies (s.global_step + 1) (omega arith)
            (visited-IsEntry (s.global_step + 1) (omega arith))

      visits_recorded :
          (e' : ExpertCacheEntry W)
          → Dict.get key_discrete key after_visit.entries ≡ some e'
          → e'.visit_count ≡ e.visit_count + 1
      visits_recorded e' h = ground (arith, get-modify key_discrete key key visited s.entries)

      abbrev settle : ExpertCacheEntry W → ExpertCacheEntry W
      settle e' = record e' { tier = tier_of s.hot_threshold s.warm_threshold (e.visit_count + 1) }

      settled : IsValid (change key settle after_visit)
      settled =
          change-IsValid key after_visit-IsValid settle frequencies (s.global_step + 1)
            (omega arith)
            λ e' h.
              let i = after_visit-IsValid.at_entry key e' h in
              record {
                own_layer = i.own_layer;
                own_expert = i.own_expert;
                held = i.held;
                tier_bound = tier_of-le _ _ _;
                earned = rw (visits_recorded e' h) (omega arith);
                past = i.past;
              }

    record_visit-IsValid : IsValid (record_visit key e s).1
    unfolding record_visit
    record_visit-IsValid = elim (Option-cases (get_elem? s.layer_frequency key.0)) [
      | inl outside ↦
          rw (outside, record_visit)
            (change-IsValid key v visited s.layer_frequency s.global_step (omega arith)
              (visited-IsEntry s.global_step (omega arith)))
      | inr (frequency, inside) ↦
          rw (inside, record_visit)
            (settled (set_at s.layer_frequency key.0 (increment key.1 frequency)))
    ]

  pub record_access-IsValid :
      (key : Key) {s : ExpertCache W} → IsValid s → IsValid (record_access key s).1
  unfolding record_access
  record_access-IsValid key {s} v =
      record_visit-IsValid key (create-IsValid key s v) (get_or_create_entry key s).0
        (get-create key s)
