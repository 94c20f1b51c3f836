-- ===== src/Quantizer/Codes/Decoded.antt =====
-- The weights that `decompress_blocklut` returns, one by one.
use native.Mathlib.Nat.{div-lt_iff_lt-mul}
use block_lut.Prelude.{
  ℕ, zero, suc, ◌+◌, ◌-◌, ◌/◌, ◌<◌, min, ◌≡◌, refl, sym, subst, ap, ◌∙◌, Bool-cases, inl, inr, List,
  [], ◌∷◌, map, length, get_or, range', leb, All, arith, length-map, get_or-map, get_elem?-get_or,
}
use block_lut.Outcome.{Returns}
use block_lut.Split.{ceil_div}
use block_lut.Quantizer.Numbers.{Numbers, gather}
use block_lut.Quantizer.Blocks.Rows.{rounded_up}
use block_lut.Quantizer.Codes.{block_ids, clamped_ids, scaled, scale_blocks, decompress_blocklut}
use block_lut.Quantizer.Codes.Agree.{max_of-le, length-range'}

pub get_or-range' : (first k i : ℕ) → i < k → get_or (range' first k) i 0 ≡ first + i
get_or-range' first zero i h = absurd (omega arith)
get_or-range' first (suc k) zero h = omega arith
get_or-range' first (suc k) (suc i) h = omega (arith, get_or-range' (suc first) k i (omega arith))

All-get_or :
    {A : Type 0} (P : A → Type 0) (xs : List A) (d : A)
    → ((i : ℕ) → i < length xs → P (get_or xs i d))
    → All P xs
All-get_or P [] d h = tt
All-get_or P (x ∷ xs) d h = (h 0 (omega arith), All-get_or P xs d (λ i l. h (suc i) (omega arith)))

gather-get_or :
    {A : Type 0} (xs : List A) (d : A) (ids : List ℕ)
    → All (λ i. i < length xs) ids
    → Returns
        (λ ys.
          (length ys ≡ length ids)
          × ((i : ℕ) → i < length ids → get_or ys i d ≡ get_or xs (get_or ids i 0) d))
        (gather xs ids)
unfolding gather
gather-get_or xs d [] h = ([], refl, (refl, λ i l. absurd (omega arith)))
gather-get_or xs d (j ∷ ids) (h, hs) =
    let (ys, runs, (long, each)) = gather-get_or xs d ids hs in
    rw (gather, get_elem?-get_or xs j d h, runs)
      (
        _,
        refl,
        (
          ap suc long,
          λ i.
              elim i
                as (λ m.
                  m < suc (length ids)
                  → get_or (get_or xs j d ∷ ys) m d ≡ get_or xs (get_or (j ∷ ids) m 0) d) [
                    | zero ↦ λ l. refl
                    | suc k ↦ λ l. each k (omega arith)
                  ],
        ),
      )

block_bound : (k b i : ℕ) → i < suc k → i / suc b < ceil_div (suc k) (suc b)
block_bound k b i h = (div-lt_iff_lt-mul (omega arith)).1 (omega (arith, rounded_up (suc k) b, h))

-- The block numbers of the elements, with the blocks that there are.
record IsBlockId (k b : ℕ) (ids : List ℕ) : Type 0 where
  long : length ids ≡ suc k
  each : (i : ℕ) → i < suc k → get_or ids i 0 ≡ i / suc b
  within : All (λ j. j < ceil_div (suc k) (suc b)) ids

each-IsBlockId :
    (k b : ℕ) (ids : List ℕ)
    → length ids ≡ suc k
    → ((i : ℕ) → i < suc k → get_or ids i 0 ≡ i / suc b)
    → IsBlockId k b ids
each-IsBlockId k b ids long each = record {
  long = long;
  each = each;
  within = All-get_or _ ids 0 (λ i l. rw (each i (omega arith)) (block_bound k b i (omega arith)));
}

quotients-IsBlockId : (k b : ℕ) → IsBlockId k b (map (λ i. i / suc b) (range' 0 (suc k)))
quotients-IsBlockId k b =
    let quotient : ℕ → ℕ = λ i. i / suc b in
    let size = length-range' 0 (suc k) in
    each-IsBlockId k b (map quotient (range' 0 (suc k)))
      (length-map quotient (range' 0 (suc k)) ∙ size)
      (λ i l.
        get_or-map quotient (range' 0 (suc k)) i 0 0 (omega (arith, size))
        ∙ ap quotient (omega (arith, get_or-range' 0 (suc k) i l)))

-- A clamp to the last block changes nothing.
clamped-IsBlockId :
    (k b : ℕ) (ids : List ℕ)
    → IsBlockId k b ids
    → IsBlockId k b (map (λ i. min i (ceil_div (suc k) (suc b) - 1)) ids)
clamped-IsBlockId k b ids v =
    let clamp : ℕ → ℕ = λ i. min i (ceil_div (suc k) (suc b) - 1) in
    each-IsBlockId k b (map clamp ids) (length-map clamp ids ∙ v.long) (λ i l.
      get_or-map clamp ids i 0 0 (omega (arith, v.long))
      ∙ ap clamp (v.each i l)
      ∙ omega (arith, block_bound k b i l))

clamped_ids-IsBlockId :
    (k b : ℕ) → Returns (IsBlockId k b) (clamped_ids (suc k) (suc b) (ceil_div (suc k) (suc b)))
unfolding clamped_ids block_ids
clamped_ids-IsBlockId k b =
    let base = quotients-IsBlockId k b in
    let (m, runs, below) = max_of-le (0 / suc b) (map (λ i. i / suc b) (range' 1 k)) in
    rw runs (elim (Bool-cases (leb (ceil_div (suc k) (suc b)) m)) [
      | inl over ↦ rw over (_, refl, clamped-IsBlockId k b _ base)
      | inr under ↦ rw under (_, refl, base)
    ])

module _ {A : Type 0} (n : Numbers A) where
  scaled-get_or :
      (xs scale : List A) (i : ℕ)
      → length xs ≡ length scale
      → i < length xs
      → get_or (scaled n xs scale) i n.zero ≡ n.mul (get_or xs i n.zero) (get_or scale i n.zero)
  unfolding scaled
  scaled-get_or [] scale i h l = absurd (omega arith)
  scaled-get_or (x ∷ xs) [] i h l = absurd (omega arith)
  scaled-get_or (x ∷ xs) (s ∷ scale) zero h l = refl
  scaled-get_or (x ∷ xs) (s ∷ scale) (suc i) h l =
      scaled-get_or xs scale i (omega arith) (omega arith)

  length-scaled :
      (xs scale : List A) → length xs ≡ length scale → length (scaled n xs scale) ≡ length xs
  unfolding scaled
  length-scaled [] scale h = refl
  length-scaled (x ∷ xs) [] h = absurd (omega arith)
  length-scaled (x ∷ xs) (s ∷ scale) h = ap suc (length-scaled xs scale (omega arith))

  -- A value for each index: its entry of the codebook times the scale of its block.
  pub record IsDecoded (indices : List ℕ) (absmax codebook : List A) (block_size : ℕ)
      (values : List A) : Type 0 where
    pub long : length values ≡ length indices
    pub each :
        (i : ℕ)
        → i < length indices
        → get_or values i n.zero
          ≡ n.mul
              (get_or codebook (get_or indices i 0) n.zero)
              (get_or absmax (i / block_size) n.zero)

  -- With a scale for each block of a positive size, and indices within the codebook, at least
  -- one, the function returns.
  pub decompress_blocklut-IsDecoded :
      (indices : List ℕ) (absmax codebook : List A) (block_size : ℕ)
      → 0 < length indices
      → 0 < block_size
      → length absmax ≡ ceil_div (length indices) block_size
      → All (λ i. i < length codebook) indices
      → Returns
          (IsDecoded indices absmax codebook block_size)
          (decompress_blocklut n indices absmax codebook block_size)
  unfolding decompress_blocklut scale_blocks
  decompress_blocklut-IsDecoded [] absmax codebook b some_index hb size within =
      absurd (omega arith)
  decompress_blocklut-IsDecoded (j ∷ js) absmax codebook zero some_index hb size within =
      absurd (omega arith)
  decompress_blocklut-IsDecoded (j ∷ js) absmax codebook (suc b) some_index hb size within =
      let k = length js in
      let (values, found, (long, value)) = gather-get_or codebook n.zero (j ∷ js) within in
      let (ids, clamped, blocks) : Returns (IsBlockId k b)
          (clamped_ids (suc k) (suc b) (length absmax)) =
        subst (λ m. Returns (IsBlockId k b) (clamped_ids (suc k) (suc b) m)) (sym size)
          (clamped_ids-IsBlockId k b) in
      let (scale, scaled_by, (as_long, factor)) =
        gather-get_or absmax n.zero ids
          (subst (λ m. All (λ i. i < m) ids) (sym size) blocks.within) in
      let same : length values ≡ length scale = omega (arith, long, as_long, blocks.long) in
      rw (found, clamped, scaled_by)
        (
          _,
          refl,
          record {
            long = length-scaled values scale same ∙ long;
            each = λ i l.
                scaled-get_or values scale i same (omega (arith, long))
                ∙ ap (λ v. n.mul v (get_or scale i n.zero)) (value i l)
                ∙ ap (n.mul _) (
                    factor i (omega (arith, blocks.long))
                    ∙ ap (λ m. get_or absmax m n.zero) (blocks.each i l));
          },
        )
