-- ===== src/LutTables/Keys.antt =====
-- The key orders bf16 bit patterns like their values, and what the index of a weight counts.
use block_lut.Prelude.{
  ℕ, suc, ◌≤◌, ◌<◌, ◌≡◌, refl, ap, Bool, true, false, List, [], ◌∷◌, map, length, All, ltb,
  if◌then◌else◌, arith,
}
use native.Mathlib.Nat.{mod-eq_of_lt}
use block_lut.LutTables.{key, quantize_weight_to_lut}

-- The value of bits `u` is less than that of `v`, by sign and magnitude; -0 is less than 0.
unfoldable pub less : ℕ → ℕ → Bool
less u v =
    if ltb u 32768
    then (if ltb v 32768 then ltb u v else false)
    else (if ltb v 32768 then true else ltb v u)

-- How many of the values are less than that of `w`.
unfoldable pub count_less : List ℕ → ℕ → ℕ
unfolding less
count_less [] w = 0
count_less (m ∷ ms) w = let rest = count_less ms w in if less m w then suc rest else rest

-- Each value is not less than the one before it.
unfoldable pub Ascending : (ℕ → ℕ → Bool) → List ℕ → Type 0
Ascending below [] = Unit {0}
Ascending below (x ∷ []) = Unit {0}
Ascending below (x ∷ y ∷ xs) = (below y x ≡ false) × Ascending below (y ∷ xs)

-- What numpy documents of `searchsorted` on an ascending array: the number of smaller elements.
unfoldable pub count_below : List ℕ → ℕ → ℕ
count_below [] v = 0
count_below (x ∷ xs) v = let rest = count_below xs v in if ltb x v then suc rest else rest

unfoldable pub IsSearch : (List ℕ → ℕ → ℕ) → Type 0
unfolding count_below Ascending
IsSearch searchsorted =
    (xs : List ℕ) (v : ℕ) → Ascending ltb xs → searchsorted xs v ≡ count_below xs v

abbrev pub Pattern : ℕ → Type 0
Pattern u = u < 65536

ltb-key : (u v : ℕ) → Pattern u → Pattern v → ltb (key u) (key v) ≡ less u v
unfolding key less
ltb-key u v hu hv = ground arith

Ascending-key : (ms : List ℕ) → All Pattern ms → Ascending less ms → Ascending ltb (map key ms)
unfolding Ascending
Ascending-key [] h a = tt
Ascending-key (x ∷ []) h a = tt
Ascending-key (x ∷ y ∷ ms) (hx, (hy, h)) (a, rest) =
    (rw (ltb-key y x hy hx) a, Ascending-key (y ∷ ms) (hy, h) rest)

count_below-key :
    (ms : List ℕ) (w : ℕ)
    → All Pattern ms
    → Pattern w
    → count_below (map key ms) (key w) ≡ count_less ms w
unfolding count_below count_less
count_below-key [] w h l = refl
count_below-key (m ∷ ms) w (hm, h) l = rw (ltb-key m w hm l, count_below-key ms w h l) refl

count_less-le : (ms : List ℕ) (w : ℕ) → count_less ms w ≤ length ms
unfolding count_less
count_less-le [] w = omega arith
count_less-le (m ∷ ms) w = ground (arith, count_less-le ms w)

-- With a `searchsorted` as numpy documents it, fewer than 256 thresholds, and thresholds that are
-- the keys of bf16 values in ascending order: the index of each weight is the number of these
-- values that are less than the weight, negative ones included.
pub quantize_weight_to_lut-count_less :
    (searchsorted : List ℕ → ℕ → ℕ) (ms weights : List ℕ)
    → IsSearch searchsorted
    → All Pattern ms
    → Ascending less ms
    → length ms < 256
    → All Pattern weights
    → quantize_weight_to_lut searchsorted (map key ms) weights ≡ map (count_less ms) weights
unfolding quantize_weight_to_lut IsSearch
quantize_weight_to_lut-count_less search ms [] s h a l hw = refl
quantize_weight_to_lut-count_less search ms (w ∷ ws) s h a l (hw, hws) =
    let found = s (map key ms) (key w) (Ascending-key ms h a) in
    let counted = count_below-key ms w h hw in
    let low : count_less ms w < 256 = omega (arith, count_less-le ms w) in
    rw (found, counted, mod-eq_of_lt low)
      (ap (◌∷◌ (count_less ms w)) (quantize_weight_to_lut-count_less search ms ws s h a l hws))
