-- ===== src/Progressive/Lru.antt =====
-- `_evict_one` finds the least recently used of the cached experts and evicts it.
use mathlib.Core.Logic.{if_pos, if_neg}
use block_lut.Prelude.{
  ap, ltb, tests, ℕ, ◌≤◌, ◌<◌, ◌≡◌, ◌⊎◌, refl, sym, ◌∙◌, true, none, some, [], ◌∷◌, length, arith,
  ltb, if◌then◌else◌, Option-cases, Bool-cases, inl, inr,
}
use block_lut.Outcome.{ok}
use block_lut.Dict
use block_lut.Dict.{Dict, IsDistinct}
use block_lut.Progressive.{
  Key, key_discrete, ExpertCacheEntry, ExpertCache, get_or_create_entry, is_cached, drop_cached,
  evict, least_recent, lru_key, evict_from, evict_one,
}
use block_lut.Progressive.Invariant.{IsValid}

module _ {W : Type 0} where
  -- What `least_recent` finds among `best` and the keys of `d`: a tracked key, last accessed no
  -- later than any of them.
  pub record IsOldest (s : ExpertCache W) (best : Key) (step : ℕ) (d : Dict Key W) : Type 0 where
    pub key : Key
    pub entry : ExpertCacheEntry W
    pub chosen : least_recent s best step d ≡ ok key
    pub found : Dict.get key_discrete key s.entries ≡ some entry
    pub no_later : entry.last_access_step ≤ step
    pub least :
        (j : Key) (w : W) (e : ExpertCacheEntry W)
        → Dict.get key_discrete j d ≡ some w
        → Dict.get key_discrete j s.entries ≡ some e
        → entry.last_access_step ≤ e.last_access_step
    pub origin : (key ≡ best) ⊎ ((w : W) × (Dict.get key_discrete key d ≡ some w))

  -- A key that a dictionary holds, seen from one entry more.
  held_cons :
      (k : Key) (w : W) (d : Dict Key W) (j : Key)
      → (j ≡ k) ⊎ ((w' : W) × (Dict.get key_discrete j d ≡ some w'))
      → (w' : W) × (Dict.get key_discrete j ((k, w) ∷ d) ≡ some w')
  unfolding Dict.get
  held_cons k w d j (inl same) = (w, if_pos (key_discrete k j) (sym same) _ _)
  held_cons k w d j (inr (w', h)) = elim (key_discrete k j) [
    | yes p ↦ (w, if_pos (key_discrete k j) p _ _)
    | no p ↦ (w', if_neg (key_discrete k j) p _ _ ∙ h)
  ]

  module _ (s : ExpertCache W) (k : Key) (w : W) (d : Dict Key W) where
    abbrev Tracked : Dict Key W → Type 0
    Tracked d' =
        (j : Key) → Dict.get key_discrete j s.entries ≡ none → Dict.get key_discrete j d' ≡ none

    head-Tracked :
        Tracked ((k, w) ∷ d)
        → (e : ExpertCacheEntry W) × (Dict.get key_discrete k s.entries ≡ some e)
    unfolding Dict.get
    head-Tracked tracked = elim (Option-cases (Dict.get key_discrete k s.entries)) [
      | inr found ↦ found
      | inl missing ↦ absurd (ground (arith, tracked k missing))
    ]

    tail-Tracked : Tracked ((k, w) ∷ d) → Tracked d
    unfolding Dict.get
    tail-Tracked tracked j missing = ground (arith, tracked j missing)

    -- A step that is least over a dictionary and no later than one more key's is least over both.
    least_cons :
        (step : ℕ) (ek : ExpertCacheEntry W)
        → Dict.get key_discrete k s.entries ≡ some ek
        → step ≤ ek.last_access_step
        → ((j : Key) (w' : W) (e : ExpertCacheEntry W)
            → Dict.get key_discrete j d ≡ some w'
            → Dict.get key_discrete j s.entries ≡ some e
            → step ≤ e.last_access_step)
        → (j : Key) (w' : W) (e : ExpertCacheEntry W)
        → Dict.get key_discrete j ((k, w) ∷ d) ≡ some w'
        → Dict.get key_discrete j s.entries ≡ some e
        → step ≤ e.last_access_step
    unfolding Dict.get
    least_cons step ek found h rest j w' e held tracked = elim (key_discrete k j) [
      | yes p ↦
          let same : some ek ≡ some e =
            sym found ∙ ap (λ i. Dict.get key_discrete i s.entries) p ∙ tracked in
          ground arith
      | no p ↦ rest j w' e (sym (if_neg (key_discrete k j) p _ _) ∙ held) tracked
    ]

  -- One round of the loop of `min`.
  least_recent_step :
      (s : ExpertCache W) (best : Key) (step : ℕ) (k : Key) (w : W) (d : Dict Key W)
      (ek : ExpertCacheEntry W)
      → Dict.get key_discrete k s.entries ≡ some ek
      → least_recent s best step ((k, w) ∷ d) ≡ (
          let nearer = ltb ek.last_access_step step in
          least_recent s
            (if nearer then k else best)
            (if nearer then ek.last_access_step else step)
            d)
  unfolding least_recent
  least_recent_step s best step k w d ek found = ground arith

  pub oldest :
      (s : ExpertCache W) (best : Key) (e : ExpertCacheEntry W) (d : Dict Key W)
      → Dict.get key_discrete best s.entries ≡ some e
      → ((j : Key) → Dict.get key_discrete j s.entries ≡ none → Dict.get key_discrete j d ≡ none)
      → IsOldest s best e.last_access_step d
  unfolding least_recent
  oldest s best e [] found tracked = record {
    key = best;
    entry = e;
    chosen = refl;
    found = found;
    no_later = omega arith;
    least = λ j w e' h. absurd (unfold Dict.get in cc);
    origin = inl refl;
  }
  oldest s best e ((k, w) ∷ d) found tracked =
      let (ek, found_k) = head-Tracked s k w d tracked in
      let rest = tail-Tracked s k w d tracked in
      elim (Bool-cases (ltb ek.last_access_step e.last_access_step)) [
        | inl nearer ↦
            let r = oldest s k ek d found_k rest in
            record {
              key = r.key;
              entry = r.entry;
              chosen =
                  rw (least_recent_step s best e.last_access_step k w d ek found_k, nearer)
                    r.chosen;
              found = r.found;
              no_later = omega (tests, r.no_later);
              least = least_cons s k w d r.entry.last_access_step ek found_k r.no_later r.least;
              origin = inr (held_cons k w d r.key r.origin);
            }
        | inr later ↦
            let r = oldest s best e d found rest in
            record {
              key = r.key;
              entry = r.entry;
              chosen =
                  rw (least_recent_step s best e.last_access_step k w d ek found_k, later) r.chosen;
              found = r.found;
              no_later = r.no_later;
              least =
                  least_cons s k w d r.entry.last_access_step ek found_k
                    (ground (arith, r.no_later)) r.least;
              origin = elim r.origin [
                | inl same ↦ inl same
                | inr there ↦ inr (held_cons k w d r.key (inr there))
              ];
            }
      ]

  -- A cached key whose entry was last accessed no later than that of any cached key.
  pub record IsLeastRecent (s : ExpertCache W) (key : Key) : Type 0 where
    pub entry : ExpertCacheEntry W
    pub found : Dict.get key_discrete key s.entries ≡ some entry
    pub cached : (w : W) × (Dict.get key_discrete key s.cache ≡ some w)
    pub least :
        (j : Key) (w : W) (e : ExpertCacheEntry W)
        → Dict.get key_discrete j s.cache ≡ some w
        → Dict.get key_discrete j s.entries ≡ some e
        → entry.last_access_step ≤ e.last_access_step

  lru_key_step :
      (s : ExpertCache W) (k : Key) (d : Dict Key W) (e : ExpertCacheEntry W)
      → Dict.get key_discrete k s.entries ≡ some e
      → lru_key s k d ≡ least_recent s k e.last_access_step d
  unfolding lru_key
  lru_key_step s k d e found = ground arith

  -- What `lru_key` computes from a cache of at least one expert.
  lru_key_found :
      (s : ExpertCache W) (k : Key) (w : W) (d : Dict Key W)
      → IsValid s
      → s.cache ≡ (k, w) ∷ d
      → (key : Key) × IsLeastRecent s key × (lru_key s k d ≡ ok key)
  unfolding lru_key
  lru_key_found s k w d v full =
      let tracked : Tracked s k w d ((k, w) ∷ d) =
        λ j h. sym (ap (Dict.get key_discrete j) full) ∙ v.tracked j h in
      let (e, found) = head-Tracked s k w d tracked in
      let r = oldest s k e d found (tail-Tracked s k w d tracked) in
      let (w', held) = held_cons k w d r.key r.origin in
      (
        r.key,
        record {
          entry = r.entry;
          found = r.found;
          cached = (w', ap (Dict.get key_discrete r.key) full ∙ held);
          least = λ j wj ej h f.
              least_cons s k w d r.entry.last_access_step e found r.no_later r.least j wj ej
                (sym (ap (Dict.get key_discrete j) full) ∙ h) f;
        },
        lru_key_step s k d e found ∙ r.chosen,
      )

  create_found :
      (key : Key) (s : ExpertCache W) (e : ExpertCacheEntry W)
      → Dict.get key_discrete key s.entries ≡ some e
      → (get_or_create_entry key s).1 ≡ s
  unfolding get_or_create_entry
  create_found key s e found = rw (found, get_or_create_entry)

  -- Evicting a cached and tracked key drops it.
  pub evict_cached :
      (key : Key) (s : ExpertCache W) (w : W) (e : ExpertCacheEntry W)
      → Dict.get key_discrete key s.cache ≡ some w
      → Dict.get key_discrete key s.entries ≡ some e
      → evict key s ≡ (true, drop_cached key s)
  unfolding evict is_cached
  evict_cached key s w e cached found =
      rw (cached, is_cached, evict)
        (ap (λ t. (true, drop_cached key t)) (create_found key s e found))

  evict_from_least :
      (s : ExpertCache W) (k : Key) (w : W) (d : Dict Key W)
      → IsValid s
      → s.cache ≡ (k, w) ∷ d
      → (key : Key) × IsLeastRecent s key × (evict_from s ((k, w) ∷ d) ≡ (ok tt, drop_cached key s))
  evict_from_least s k w d v full =
      let (key, least, chosen) = lru_key_found s k w d v full in
      let (held, cached) = least.cached in
      (
        key,
        least,
        rw (chosen, evict_from)
            (ap (λ r. (ok tt, r.1)) (evict_cached key s held least.entry cached least.found)),
      )

  -- From a valid cache that holds at least one expert `_evict_one` raises nothing and drops a
  -- cached key, whose last access is no later than that of any cached key.
  pub evict_one_least :
      (s : ExpertCache W)
      → IsValid s
      → 0 < length s.cache
      → (key : Key) × IsLeastRecent s key × (evict_one s ≡ (ok tt, drop_cached key s))
  unfolding evict_one
  evict_one_least s v some_cached = go s.cache refl
    where
      go :
          (d : Dict Key W)
          → s.cache ≡ d
          → (key : Key) × IsLeastRecent s key × (evict_from s s.cache ≡ (ok tt, drop_cached key s))
      go [] full = absurd (omega (arith, ap length full))
      go ((k, w) ∷ d) full =
          let (key, least, done) = evict_from_least s k w d v full in
          (key, least, ap (evict_from s) full ∙ done)
