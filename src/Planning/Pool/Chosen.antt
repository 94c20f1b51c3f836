-- ===== src/Planning/Pool/Chosen.antt =====
-- What `CachePoolPlanningSimu` returns: whether any ratio fits, and the ratio whose smoothed delay
-- is least.
use block_lut.Prelude.{
  ℕ, zero, suc, ◌<◌, ◌≡◌, refl, sym, ap, ◌∙◌, true, false, Option-cases, ◌⊎◌, inl, inr, none, List,
  [], ◌∷◌, map, length, get_or, All, arith, length-map,
}
use block_lut.Outcome.{Returns}
use block_lut.Planning.Delay.{Estimates}
use block_lut.Planning.Pool.{
  Pool, Search, fits, sm_slot_size, ratio_full_cache_list, best_ratio, cache_pool_planning_simu,
}
use block_lut.Planning.Pool.Runs.{IsProper, divisor-runs}
use block_lut.Planning.Pool.Found.{
  is_some, has_min, any_fits, delays, any_large, delays-fits, try_ratios-Adds,
}

-- pandas: a smoothed series is as long, and `idxmin` finds a least value of a series.
pub record IsSeries {A : Type 0} (f : Estimates A) (Le : A → A → Type 0) : Type 0 where
  pub length-smooth : (xs : List A) → length (f.smooth xs) ≡ length xs
  pub idxmin-lt : (xs : List A) → 0 < length xs → f.idxmin xs < length xs
  pub idxmin-Le : (xs : List A) → All (Le (get_or xs (f.idxmin xs) f.arithmetic.zero)) xs

module _ {A : Type 0} (f : Estimates A) (p : Pool A) where
  any_large-lt : (found : List (A × A)) → any_large f p found ≡ true → 0 < length found
  any_large-lt [] h = absurd (cc)
  any_large-lt (c ∷ found) h = omega arith

  fits-get_or :
      (found : List (A × A)) (i : ℕ) (d : A)
      → All (λ (c : A × A). fits f p (c.0) ≡ true) found
      → i < length found
      → fits f p (get_or (map (λ c. c.0) found) i d) ≡ true
  fits-get_or [] i d h l = absurd (omega arith)
  fits-get_or (c ∷ found) zero d h l = h.0
  fits-get_or (c ∷ found) (suc i) d h l = fits-get_or found i d h.1 (omega arith)

  -- The ratio of the least smoothed delay, of those that were found.
  abbrev pub IsBest : (A → A → Type 0) → List (A × A) → A → Type 0
  IsBest Le found r =
      let smoothed = f.smooth (map (λ c. c.1) found) in
      (i : ℕ) × (i < length found)
      × (r ≡ get_or (map (λ c. c.0) found) i f.arithmetic.zero)
      × (fits f p r ≡ true)
      × All (Le (get_or smoothed i f.arithmetic.zero)) smoothed

  best_ratio-IsBest :
      {Le : A → A → Type 0} (series : IsSeries f Le) (found : List (A × A)) (s : Search A)
      → All (λ (c : A × A). fits f p (c.0) ≡ true) found
      → s.ratio_list ≡ map (λ c. c.0) found
      → s.simu_delay_list ≡ map (λ c. c.1) found
      → has_min f p s ≡ any_large f p found
      → ((any_large f p found ≡ false)
          × (best_ratio f p s ≡ f.arithmetic.sub f.arithmetic.one p.step_size))
        ⊎ ((any_large f p found ≡ true) × IsBest Le found (best_ratio f p s))
  unfolding best_ratio
  best_ratio-IsBest series found s fit ratios costs large = elim (Option-cases s.min_delay) [
    | inl unset ↦ inl (sym large ∙ ap (is_some f p) unset, rw unset)
    | inr (d, set) ↦
        let some_large : any_large f p found ≡ true = sym large ∙ ap (is_some f p) set in
        let delay_list = map (λ (c : A × A). c.1) found in
        let i = f.idxmin (f.smooth delay_list) in
        let long = length-map (λ (c : A × A). c.1) found in
        let within : i < length found = omega (
          arith,
          series.idxmin-lt (f.smooth delay_list)
              (omega (arith, series.length-smooth delay_list, long, any_large-lt found some_large)),
          series.length-smooth delay_list,
          long,
        ) in
        inr (
          some_large,
          rw (set, ratios, costs)
              (
                i,
                within,
                refl,
                fits-get_or found i f.arithmetic.zero fit within,
                series.idxmin-Le (f.smooth delay_list),
              ),
        )
  ]

  -- With positive divisors and a probability for every expert the search returns. It reports
  -- whether any of its ratios fits the memory of a layer. If one of the ratios that fit and have
  -- an expected delay is at least 0.3, it returns the one whose smoothed delay is least among all
  -- of these, also those below 0.3; otherwise it returns one minus the step.
  pub cache_pool_planning_simu-IsBest :
      {Le : A → A → Type 0}
      → IsProper f p
      → IsSeries f Le
      → let found = delays f p (ratio_full_cache_list f p) in
        Returns
          (λ r.
            (r.1 ≡ any_fits f p (ratio_full_cache_list f p))
            × (((any_large f p found ≡ false)
                  × (r.0 ≡ f.arithmetic.sub f.arithmetic.one p.step_size))
                ⊎ ((any_large f p found ≡ true) × IsBest Le found (r.0))))
          (cache_pool_planning_simu f p)
  unfolding cache_pool_planning_simu
  cache_pool_planning_simu-IsBest proper series =
      let ratios = ratio_full_cache_list f p in
      let (s, runs, found) =
        try_ratios-Adds f p proper ratios
          (record { feasible = false; ratio_list = []; simu_delay_list = []; min_delay = none }) in
      rw
        (
          divisor-runs p.num_sparse_layers proper.some_layer,
          divisor-runs (sm_slot_size f p) proper.some_slot,
          proper.some_step,
          runs,
        )
        (
          _,
          refl,
          (
            found.feasible,
            best_ratio-IsBest series (delays f p ratios) s (delays-fits f p ratios) found.ratios
                found.costs found.large,
          ),
        )
