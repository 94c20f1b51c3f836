-- ===== src/MoeLayer/Forward/Tracking.antt =====
-- The accesses that the forward pass counts in the layer's cache.
use block_lut.Prelude.{
  ℕ, ◌<◌, refl, Bool, true, false, Option-cases, inl, inr, Option, none, some, length,
  get_elem?-some, arith, length-set_at,
}
use block_lut.Outcome.{Result, Returns}
use block_lut.Counter.{increment}
use block_lut.Dict
use block_lut.Progressive.{
  Key, key_discrete, new_entry, ExpertCache, ExpertCacheEntry, get_or_create_entry, record_access,
  record_visit,
}
use block_lut.MoeLayer.Forward.{track}

-- The layer's frequencies are there for the accesses to be counted in.
abbrev pub Counts : {W : Type 0} → ℕ → Option (ExpertCache W) → Type 0
Counts layer_id none = Unit {0}
Counts layer_id (some cache) = layer_id < length cache.layer_frequency

module _ {W : Type 0} where
  -- The access is counted, and the layer stays within the frequencies.
  abbrev Counted : ℕ → Result ℕ × ExpertCache W → Type 0
  Counted layer_id (tier, cache) =
      Returns (λ t. Unit {0}) tier × (layer_id < length cache.layer_frequency)

  record_visit-Counted :
      (layer_id expert_id : ℕ) (entry : ExpertCacheEntry W) (cache : ExpertCache W)
      → layer_id < length cache.layer_frequency
      → Counted layer_id (record_visit (layer_id, expert_id) entry cache)
  unfolding record_visit
  record_visit-Counted layer_id expert_id entry cache h =
      let (frequency, found) = get_elem?-some cache.layer_frequency layer_id h in
      let counted = increment expert_id frequency in
      rw (record_visit, found)
        ((_, refl, tt), omega (arith, length-set_at cache.layer_frequency layer_id counted))

  record_access-Counted :
      (layer_id expert_id : ℕ) (cache : ExpertCache W)
      → layer_id < length cache.layer_frequency
      → Counted layer_id (record_access (layer_id, expert_id) cache)
  unfolding record_access get_or_create_entry
  record_access-Counted layer_id expert_id cache h =
      let key : Key = (layer_id, expert_id) in
      elim (Option-cases (Dict.get key_discrete key cache.entries)) [
        | inl new ↦
            rw (record_access, get_or_create_entry, new)
              (record_visit-Counted layer_id expert_id (new_entry key) _ h)
        | inr (entry, old) ↦
            rw (record_access, get_or_create_entry, old)
              (record_visit-Counted layer_id expert_id entry cache h)
      ]

  pub track-Counts :
      (on : Bool) (layer_id expert_id : ℕ) (cache : Option (ExpertCache W))
      → Counts layer_id cache
      → Returns (Counts layer_id) (track on layer_id expert_id cache)
  unfolding track
  track-Counts false layer_id expert_id cache h = (cache, refl, h)
  track-Counts true layer_id expert_id none h = (none, refl, tt)
  track-Counts true layer_id expert_id (some cache) h =
      let ((tier, runs, _), counts) = record_access-Counted layer_id expert_id cache h in
      rw runs (_, refl, counts)
