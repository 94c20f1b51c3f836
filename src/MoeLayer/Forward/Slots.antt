-- ===== src/MoeLayer/Forward/Slots.antt =====
-- One slot of the forward pass: every token gets the weighted output of the expert that it has
-- chosen for the slot, and no other token of the slot is changed by it.
use block_lut.Prelude.{
  ℕ, zero, suc, ◌+◌, ◌<◌, ◌≤◌, ◌≡◌, refl, sym, ap, ◌∙◌, Bool, false, ◌&&◌, Bool-cases,
  same_or_other, subst, inl, inr, Option, some, List, [], ◌∷◌, map, length, get_elem?, get_or,
  range', ltb, leb, ◌==◌, if◌then◌else◌, arith, length-map, get_or-map,
}
use block_lut.Outcome.{ok, Returns, Returns-bind}
use block_lut.Progressive.{ExpertCache}
use block_lut.Quantizer.Numbers.{Numbers}
use block_lut.Routing.{any, select}
use block_lut.Routing.Masked.{any-get_or, length-add_at, add_at-get_or}
use block_lut.MoeLayer.Wrapper.{ExpertWrapper, get_weight}
use block_lut.MoeLayer.Layer.{MoeLut}
use block_lut.MoeLayer.Forward.{Network, expert_rows, visit, visit_all}
use block_lut.MoeLayer.Forward.Tracking.{Counts, track-Counts}

-- A choice of one number is that of the numbers from it up to its successor.
choose_one :
    {X : Type 0} (b : Bool) (j i : ℕ) (f : ℕ → X) (z : X)
    → b ≡ (j == i)
    → (if b then f i else z) ≡ (if leb i j && ltb j (i + 1) then f j else z)
choose_one b j i f z h = elim (same_or_other j i) [
  | inl same ↦
      subst (λ k. (if b then f k else z) ≡ (if leb k j && ltb j (k + 1) then f j else z)) same
        (rw (h ∙ ap (λ k. j == k) (sym same)) (ground arith))
  | inr other ↦ ground arith
]

-- A change by one number, and then one by the numbers after it.
join_choices :
    {X : Type 0} (j first count : ℕ) (f : X → X) (x y z : X)
    → y ≡ (if leb first j && ltb j (first + 1) then f x else x)
    → z ≡ (if leb (suc first) j && ltb j (suc first + count) then f y else y)
    → z ≡ (if leb first j && ltb j (first + suc count) then f x else x)
join_choices j first count f x y z h k = ground arith

-- Each expert of the layer has the weights `w13` and `w2` of its number.
abbrev pub HasWeights :
    {A W : Type 0} → Numbers A → (ℕ → List A) → (ℕ → List A) → MoeLut A W → Type 0
HasWeights n w13 w2 m =
    (i : ℕ)
    → i < m.num_experts
    → (e : _) × (get_elem? m.experts i ≡ some e)
      × (get_weight n "w13" e ≡ ok (w13 i))
      × (get_weight n "w2" e ≡ ok (w2 i))

module _ {A V : Type 0} (n : Numbers A) (net : Network A V) (w13 w2 : ℕ → List A) where
  -- The output of an expert for a row.
  abbrev pub expert_value : ℕ → V → V
  expert_value i x = net.linear (w2 i) (net.silu_mul (net.linear (w13 i) x))

  expert_rows-map :
      (i : ℕ) (e : ExpertWrapper A) (tokens : List V)
      → get_weight n "w13" e ≡ ok (w13 i)
      → get_weight n "w2" e ≡ ok (w2 i)
      → expert_rows n net e tokens ≡ ok (map (expert_value i) tokens)
  unfolding expert_rows
  expert_rows-map i e tokens h13 h2 = rw (h13, h2) (ap ok (map_thrice tokens))
    where
      map_thrice :
          (xs : List V)
          → map (net.linear (w2 i)) (map net.silu_mul (map (net.linear (w13 i)) xs))
            ≡ map (expert_value i) xs
      map_thrice [] = refl
      map_thrice (x ∷ xs) = ap (◌∷◌ (expert_value i x)) (map_thrice xs)

  module _ {W : Type 0} (m : MoeLut A W) (a : A) (hidden : List V) (ids : List ℕ) (weights : List A)
      (has : HasWeights n w13 w2 m) (as_many : length ids ≡ length hidden)
      (weighed : length weights ≡ length hidden) where
    -- The row of a token with the output of an expert added.
    abbrev pub added_by : List V → ℕ → ℕ → V
    added_by output t i =
        net.space.add (get_or output t net.space.zero)
          (net.space.scale (get_or weights t a) (expert_value i (get_or hidden t net.space.zero)))

    -- The state after the experts `first`, `first + 1`, ... of a slot, `count` in all.
    pub record IsAfter (first count : ℕ) (output : List V) (state : List V × Option (ExpertCache W))
        : Type 0 where
      pub long : length (state.0) ≡ length output
      pub counts : Counts m.layer_id (state.1)
      pub each :
          (t : ℕ)
          → t < length output
          → get_or (state.0) t net.space.zero ≡ (
              if leb first (get_or ids t 0) && ltb (get_or ids t 0) (first + count)
              then added_by output t (get_or ids t 0)
              else get_or output t net.space.zero)

    visit-IsAfter :
        (i : ℕ) (output : List V) (cache : Option (ExpertCache W))
        → i < m.num_experts
        → length output ≡ length hidden
        → Counts m.layer_id cache
        → Returns (IsAfter i 1 output) (visit n net m hidden ids weights i (output, cache))
    unfolding visit
    visit-IsAfter i output cache h long counts =
        let mask = map (λ j. j == i) ids in
        let masked = length-map (λ (j : ℕ). j == i) ids in
        let chosen : (t : ℕ) → t < length output → get_or mask t false ≡ (get_or ids t 0 == i) =
          λ t l. get_or-map (λ (j : ℕ). j == i) ids t 0 false (omega (arith, as_many, long)) in
        elim (Bool-cases (any mask)) [
          | inr nobody ↦
              rw (visit, nobody)
                (
                  (output, cache),
                  refl,
                  record {
                    long = refl;
                    counts = counts;
                    each = λ t l.
                        choose_one false (get_or ids t 0) i (added_by output t) _
                          (sym (any-get_or mask t nobody) ∙ chosen t l);
                  },
                )
          | inl somebody ↦
              let (e, found, h13, h2) = has i h in
              let (tracked, tracks, still) =
                track-Counts m.progressive_enabled m.layer_id i cache counts in
              rw (visit, somebody, found, tracks, expert_rows-map i e (select mask hidden) h13 h2)
                (
                  _,
                  refl,
                  record {
                    long = length-add_at net.space mask output _;
                    counts = still;
                    each = λ t l.
                        add_at-get_or net.space (expert_value i) mask weights hidden output t a
                          (omega (arith, masked, as_many, long)) (omega (arith, weighed, long))
                          (omega (arith, long)) l
                        ∙ choose_one (get_or mask t false) (get_or ids t 0) i (added_by output t) _
                            (chosen t l);
                  },
                )
        ]

    pub visit_all-IsAfter :
        (first count : ℕ) (output : List V) (cache : Option (ExpertCache W))
        → first + count ≤ m.num_experts
        → length output ≡ length hidden
        → Counts m.layer_id cache
        → Returns
            (IsAfter first count output)
            (visit_all n net m hidden ids weights (range' first count) (output, cache))
    unfolding visit_all
    visit_all-IsAfter first zero output cache h long counts =
        ((output, cache), refl, record { long = refl; counts = counts; each = λ t l. ground arith })
    visit_all-IsAfter first (suc count) output cache h long counts =
        Returns-bind _ _ (visit-IsAfter first output cache (omega arith) long counts)
          (λ (output1, cache1) one.
            let (state, runs, rest) =
              visit_all-IsAfter (suc first) count output1 cache1 (omega arith) (one.long ∙ long)
                one.counts in
            (
              state,
              runs,
              record {
                long = rest.long ∙ one.long;
                counts = rest.counts;
                each = λ t l.
                    join_choices (get_or ids t 0) first count
                      (λ row. net.space.add row (
                        net.space.scale (get_or weights t a)
                          (expert_value (get_or ids t 0) (get_or hidden t net.space.zero))))
                      (get_or output t net.space.zero) (get_or output1 t net.space.zero) _
                      (one.each t l) (rest.each t (omega (arith, one.long)));
              },
            ))
