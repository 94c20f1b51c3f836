-- ===== src/Quantizer/Codes/Agree.antt =====
-- The method `decompress` and the function `decompress_blocklut` agree.
use block_lut.Prelude.{
  ltb, lt→ltb, sym, ℕ, zero, suc, ◌-◌, ◌/◌, ◌≤◌, ◌<◌, min, max, ◌≡◌, refl, ap, true, Bool-cases,
  inl, inr, List, [], ◌∷◌, map, length, replicate, range', leb, All, arith, length-map,
}
use block_lut.Outcome.{ok, raise, Returns, Returns-bind, index_error}
use block_lut.Quantizer.Numbers.{gather-cases, Numbers, gather}
use block_lut.Quantizer.State.{LutQuantizer}
use block_lut.Quantizer.Codes.{
  is_blockwise, max_of, block_ids, clamped_ids, scaled, scale_globally, scale_values, scale_blocks,
  decompress, decompress_blocklut,
}

weaken : (m k : ℕ) (ids : List ℕ) → m ≤ k → All (λ i. i ≤ m) ids → All (λ i. i ≤ k) ids
weaken m k [] h a = tt
weaken m k (i ∷ ids) h (a, rest) = (omega arith, weaken m k ids h rest)

pub max_of-le :
    (i : ℕ) (ids : List ℕ) → Returns (λ m. All (λ j. j ≤ m) (i ∷ ids)) (max_of (i ∷ ids))
unfolding max_of
max_of-le i [] = (i, refl, (omega arith, tt))
max_of-le i (j ∷ ids) =
    Returns-bind _ _ (max_of-le j ids)
      (λ m below. (max i m, refl, (omega arith, weaken m (max i m) (j ∷ ids) (omega arith) below)))

pub length-range' : (first k : ℕ) → length (range' first k) ≡ k
length-range' first zero = refl
length-range' first (suc k) = ap suc (length-range' (suc first) k)

clamp_all : (k : ℕ) (ids : List ℕ) → All (λ i. i ≤ k) (map (λ i. min i k) ids)
clamp_all k [] = tt
clamp_all k (i ∷ ids) = (omega arith, clamp_all k ids)

-- Every block number is that of a block, or 0 where there are none.
clamped_ids-le :
    (k block_size blocks : ℕ)
    → 0 < block_size
    → Returns
        (λ ids. (length ids ≡ suc k) × All (λ i. i ≤ blocks - 1) ids)
        (clamped_ids (suc k) block_size blocks)
unfolding clamped_ids block_ids
clamped_ids-le k zero blocks h = absurd (omega arith)
clamped_ids-le k (suc b) blocks h =
    let ids = map (λ i. i / suc b) (range' 0 (suc k)) in
    let (m, runs, below) = max_of-le (0 / suc b) (map (λ i. i / suc b) (range' 1 k)) in
    let long : length ids ≡ suc k =
      omega
        (arith, length-map (λ (i : ℕ). i / suc b) (range' 0 (suc k)), length-range' 0 (suc k)) in
    rw runs (elim (Bool-cases (leb blocks m)) [
      | inl over ↦ rw over (
        _,
        refl,
        (
          omega (arith, long, length-map (λ (i : ℕ). min i (blocks - 1)) ids),
          clamp_all (blocks - 1) ids,
        ),
      )
      | inr within ↦ rw within (ids, refl, (long, weaken m (blocks - 1) ids (ground arith) below))
    ])

module _ {A : Type 0} where
  gather-one :
      (a : A) (ids : List ℕ)
      → All (λ i. i ≤ 0) ids
      → gather (a ∷ []) ids ≡ ok (replicate (length ids) a)
  unfolding gather
  gather-one a [] h = refl
  gather-one a (zero ∷ ids) (h, hs) = rw (gather-one a ids hs) refl
  gather-one a (suc i ∷ ids) (h, hs) = absurd (omega arith)

  gather-none : (ids : List ℕ) → 0 < length ids → gather {A = A} [] ids ≡ raise index_error
  unfolding gather
  gather-none [] h = absurd (omega arith)
  gather-none (i ∷ ids) h = refl

module _ {A : Type 0} (n : Numbers A) where
  scaled-replicate :
      (a : A) (xs : List A) (k : ℕ)
      → length xs ≡ k
      → scaled n xs (replicate k a) ≡ map (λ x. n.mul x a) xs
  unfolding scaled
  scaled-replicate a [] k h = refl
  scaled-replicate a (x ∷ xs) zero h = absurd (omega arith)
  scaled-replicate a (x ∷ xs) (suc k) h =
      ap (◌∷◌ (n.mul x a)) (scaled-replicate a xs k (omega arith))

  scale_values-scale_blocks :
      (k block_size : ℕ) (absmax values : List A)
      → 0 < block_size
      → length values ≡ suc k
      → scale_values n (ltb 1 (length absmax)) (suc k) block_size absmax values
        ≡ scale_blocks n (suc k) block_size absmax values
  unfolding scale_values scale_blocks scale_globally
  scale_values-scale_blocks k b [] values h l =
      let (ids, runs, (long, low)) = clamped_ids-le k b 0 h in
      rw (runs, gather-none ids (omega arith)) refl
  scale_values-scale_blocks k b (a ∷ []) values h l =
      let (ids, runs, (long, low)) = clamped_ids-le k b 1 h in
      rw (runs, gather-one a ids low)
        (ap ok (sym (scaled-replicate a values (length ids) (omega arith))))
  scale_values-scale_blocks k b (a ∷ a2 ∷ absmax) values h l =
      let many : ltb 1 (suc (suc (length absmax))) ≡ true = lt→ltb 1 _ (omega arith) in rw many refl

  -- For a quantizer with blocks of a positive size and at least one index, the method and the
  -- function return the same weights or raise the same error, for any scales and any codebook:
  -- also with one scale, which the method does not expand, with none, and with an index that is
  -- out of range.
  pub decompress-decompress_blocklut :
      (q : LutQuantizer A) (index : ℕ) (indices : List ℕ) (absmax codebook : List A)
      → is_blockwise q.code_type ≡ true
      → 0 < q.block_size
      → decompress n q (index ∷ indices) absmax codebook
        ≡ decompress_blocklut n (index ∷ indices) absmax codebook q.block_size
  unfolding decompress decompress_blocklut
  decompress-decompress_blocklut q i rest absmax codebook block h =
      elim (gather-cases codebook (i ∷ rest)) [
        | inl stops ↦ rw stops refl
        | inr (values, runs, long) ↦
            rw (runs, block)
              (scale_values-scale_blocks (length rest) q.block_size absmax values h long)
      ]
