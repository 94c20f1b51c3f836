-- ===== src/Planning/Pool/Found.antt =====
-- What the loop over the ratios finds, against a list of the ratios with an expected delay.
use mathlib.Core.List.{map-append}
use block_lut.Prelude.{
  ◌≡◌, refl, sym, ap, ◌∙◌, subst, Bool, true, false, not, Bool-cases, inl, inr, Option, none, some,
  List, [], ◌∷◌, ◌++◌, map, All, if◌then◌else◌, arith, append_assoc, append-nil,
}
use block_lut.Outcome.{Result, ok, raise, Returns}
use block_lut.Planning.Delay.{Estimates}
use block_lut.Planning.Pool.{
  Pool, Search, fits, average_delay, improves, add_delay, try_ratio, try_ratios,
}
use block_lut.Planning.Pool.Runs.{IsProper, average_delay-runs}

module _ {A : Type 0} (f : Estimates A) (p : Pool A) where
  -- The loop has kept a least delay.
  abbrev pub is_some : Option A → Bool
  is_some none = false
  is_some (some d) = true

  abbrev pub has_min : Search A → Bool
  has_min s = is_some s.min_delay

  -- A list has a ratio that fits.
  abbrev pub any_fits : List A → Bool
  any_fits [] = false
  any_fits (r ∷ rs) = if fits f p r then true else any_fits rs

  -- The ratios that fit and have an expected delay, with the delays, in order.
  abbrev pub with_delay : A → Result (Option A) → List (A × A) → List (A × A)
  with_delay r (ok (some d)) rest = (r, d) ∷ rest
  with_delay r (ok none) rest = rest
  with_delay r (raise e) rest = rest

  abbrev pub delays : List A → List (A × A)
  delays [] = []
  delays (r ∷ rs) = if fits f p r then with_delay r (average_delay f p r) (delays rs) else delays rs

  -- One of them is at least 0.3.
  abbrev pub any_large : List (A × A) → Bool
  any_large [] = false
  any_large ((r, d) ∷ rest) = if not (f.less r f.three_tenths) then true else any_large rest

  with_delay-All :
      (r : A) (o : Result (Option A)) (rest : List (A × A))
      → fits f p r ≡ true
      → All (λ (c : A × A). fits f p (c.0) ≡ true) rest
      → All (λ (c : A × A). fits f p (c.0) ≡ true) (with_delay r o rest)
  with_delay-All r (ok (some d)) rest h hs = (h, hs)
  with_delay-All r (ok none) rest h hs = hs
  with_delay-All r (raise e) rest h hs = hs

  pub delays-fits : (rs : List A) → All (λ (c : A × A). fits f p (c.0) ≡ true) (delays rs)
  delays-fits [] = tt
  delays-fits (r ∷ rs) = elim (Bool-cases (fits f p r)) [
    | inr out ↦ rw out (delays-fits rs)
    | inl in_pool ↦
        rw in_pool (with_delay-All r (average_delay f p r) (delays rs) in_pool (delays-fits rs))
  ]

  module _ (proper : IsProper f p) where
    -- What the loop adds to what it has found.
    pub record Adds (fit : Bool) (found : List (A × A)) (s s' : Search A) : Type 0 where
      pub feasible : s'.feasible ≡ (if s.feasible then true else fit)
      pub ratios : s'.ratio_list ≡ s.ratio_list ++ map (λ c. c.0) found
      pub costs : s'.simu_delay_list ≡ s.simu_delay_list ++ map (λ c. c.1) found
      pub large : has_min s' ≡ (if has_min s then true else any_large found)

    append_map :
        (g : A × A → A) (xs : List A) (ys zs : List (A × A))
        → (xs ++ map g ys) ++ map g zs ≡ xs ++ map g (ys ++ zs)
    append_map g xs ys zs =
        append_assoc xs (map g ys) (map g zs) ∙ ap (λ t. xs ++ t) (sym (map-append g ys zs))

    Adds-nothing : (s : Search A) → Adds false [] s s
    Adds-nothing s = record {
      feasible = ground arith;
      ratios = sym (append-nil _);
      costs = sym (append-nil _);
      large = ground arith;
    }

    improves-is_some :
        (r avg : A) (least : Option A)
        → is_some (if improves f p r avg least then some avg else least)
          ≡ (if is_some least then true else any_large ((r, avg) ∷ []))
    unfolding improves
    improves-is_some r avg none = ground arith
    improves-is_some r avg (some least) = ground arith

    any_large-append :
        (xs ys : List (A × A))
        → any_large (xs ++ ys) ≡ (if any_large xs then true else any_large ys)
    any_large-append [] ys = refl
    any_large-append ((r, d) ∷ xs) ys = ground (arith, any_large-append xs ys)

    add_delay-Adds :
        (r : A) (delay : Option A) (s : Search A)
        → Adds true (with_delay r (ok delay) []) s (add_delay f p r delay s)
    unfolding add_delay improves
    add_delay-Adds r none s = record {
      feasible = ground arith;
      ratios = sym (append-nil _);
      costs = sym (append-nil _);
      large = ground arith;
    }
    add_delay-Adds r (some avg) s = record {
      feasible = ground arith;
      ratios = refl;
      costs = refl;
      large = improves-is_some r avg s.min_delay;
    }

    Adds-trans :
        (fit1 fit2 : Bool) (found1 found2 : List (A × A)) (s s1 s2 : Search A)
        → Adds fit1 found1 s s1
        → Adds fit2 found2 s1 s2
        → Adds (if fit1 then true else fit2) (found1 ++ found2) s s2
    Adds-trans fit1 fit2 found1 found2 s s1 s2 a b = record {
      feasible = ground (arith, a.feasible, b.feasible);
      ratios =
          b.ratios
          ∙ ap (λ xs. xs ++ map (λ c. c.0) found2) a.ratios
          ∙ append_map (λ c. c.0) s.ratio_list found1 found2;
      costs =
          b.costs
          ∙ ap (λ xs. xs ++ map (λ c. c.1) found2) a.costs
          ∙ append_map (λ c. c.1) s.simu_delay_list found1 found2;
      large = ground (arith, a.large, b.large, any_large-append found1 found2);
    }

    with_delay-append :
        (r : A) (delay : Option A) (rest : List (A × A))
        → with_delay r (ok delay) [] ++ rest ≡ with_delay r (ok delay) rest
    with_delay-append r none rest = refl
    with_delay-append r (some d) rest = refl

    pub try_ratios-Adds :
        (rs : List A) (s : Search A)
        → Returns (Adds (any_fits rs) (delays rs) s) (try_ratios f p rs s)
    unfolding try_ratios
    try_ratios-Adds [] s = (s, refl, Adds-nothing s)
    try_ratios-Adds (r ∷ rs) s = elim (Bool-cases (fits f p r)) [
      | inr out ↦ rw (try_ratio, out) (try_ratios-Adds rs s)
      | inl in_pool ↦
          let (delay, runs, _) = average_delay-runs f p proper r in_pool in
          let s1 = add_delay f p r delay s in
          let (s2, rest, found) = try_ratios-Adds rs s1 in
          let all =
            Adds-trans true (any_fits rs) _ (delays rs) s s1 s2 (add_delay-Adds r delay s) found in
          rw (try_ratio, in_pool, runs, rest)
            (s2, refl, subst (λ c. Adds true c s s2) (with_delay-append r delay (delays rs)) all)
    ]
