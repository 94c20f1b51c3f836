-- ===== src/Quantizer/Codes/Nearest.antt =====
-- The indices that `quantize` returns are those of the nearest centroids.
use native.Mathlib.Nat.{mod-eq_of_lt}
use block_lut.Prelude.{
  ℕ, zero, suc, ◌%◌, ◌≤◌, ◌<◌, ◌≡◌, refl, subst, ◌∙◌, true, some, List, [], ◌∷◌, map, length, take,
  get_or, All, All2, arith, length-map, length-take, get_or-map, All-map,
}
use block_lut.Outcome.{Returns, Returns-bind, ok}
use block_lut.Split.{ceil_div}
use block_lut.Quantizer.Numbers.{Numbers, IsShaped, IsOrdered}
use block_lut.Quantizer.State.{LutQuantizer}
use block_lut.Quantizer.Kmeans.{nearest, argmin_rows}
use block_lut.Quantizer.Blocks.{absmax_of}
use block_lut.Quantizer.Blocks.Trained.{blocks_of-runs}
use block_lut.Quantizer.Codes.{is_blockwise, chosen_codebook, normalize_blocks, quantize}

module _ {A : Type 0} (n : Numbers A) where
  -- No centroid is nearer to `x` than the one with index `i`.
  pub record IsNearest (Le : A → A → Type 0) (centroids : List A) (x : A) (i : ℕ) : Type 0 where
    pub within : i < length centroids
    pub least :
        All (λ c. Le (n.abs (n.sub x (get_or centroids i n.zero))) (n.abs (n.sub x c))) centroids

  module _ (s : IsShaped n) {Le : A → A → Type 0} (o : IsOrdered n Le) where
    nearest-IsNearest :
        (c : A) (cs : List A) (x : A) → IsNearest Le (c ∷ cs) x (nearest n (c ∷ cs) x)
    unfolding nearest
    nearest-IsNearest c cs x =
        let distance : A → A = λ y. n.abs (n.sub x y) in
        let i = n.argmin (map distance (c ∷ cs)) in
        let inside : i < length (c ∷ cs) =
          omega (arith, s.argmin-lt (distance c) (map distance cs), length-map distance cs) in
        record {
          within = inside;
          least = All-map _ distance (c ∷ cs) (
              subst (λ d. All (Le d) (map distance (c ∷ cs)))
                (get_or-map distance (c ∷ cs) i n.zero n.zero inside)
                (o.argmin-Le (distance c) (map distance cs)));
        }

    All2-nearest :
        (c : A) (cs xs : List A) (k : ℕ)
        → length (c ∷ cs) ≤ 256
        → All2
            (IsNearest Le (c ∷ cs))
            (take k xs)
            (take k (map (λ i. i % 256) (map (nearest n (c ∷ cs)) xs)))
    All2-nearest c cs xs zero h = tt
    All2-nearest c cs [] (suc k) h = tt
    All2-nearest c cs (x ∷ xs) (suc k) h =
        let near = nearest-IsNearest c cs x in
        let low : nearest n (c ∷ cs) x < 256 = omega (arith, near.within) in
        (rw (mod-eq_of_lt low) near, All2-nearest c cs xs k h)

    argmin_rows-IsNearest :
        (centroids xs : List A) (k : ℕ)
        → 0 < length centroids
        → length centroids ≤ 256
        → Returns
            (λ ids.
              All2 (IsNearest Le centroids) (take k xs) (take k (map (λ i. i % 256) ids))
              × (length ids ≡ length xs))
            (argmin_rows n centroids xs)
    unfolding argmin_rows
    argmin_rows-IsNearest [] xs k h l = absurd (omega arith)
    argmin_rows-IsNearest (c ∷ cs) xs k h l = (_, refl, (All2-nearest c cs xs k l, length-map _ xs))

    normalize_blocks-runs :
        (block_size : ℕ) (xs : List A)
        → 0 < block_size
        → Returns
            (λ r. (length xs ≤ length (r.0)) × (length (r.1) ≡ ceil_div (length xs) block_size))
            (normalize_blocks n block_size xs)
    unfolding normalize_blocks
    normalize_blocks-runs b xs h =
        Returns-bind _ _ (blocks_of-runs n b xs h)
          (λ blocks sizes. (_, refl, (sizes.2, length-map (absmax_of n) blocks ∙ sizes.1)))

    -- With a codebook of 1 to 256 entries and a positive block size, quantization by blocks
    -- returns one index for each weight and one scale for each block; index by index, the
    -- centroid is in the codebook and none is nearer to the normalised weight. So the cast to
    -- uint8 loses nothing.
    pub quantize-IsNearest :
        (q : LutQuantizer A) (weight codebook : List A)
        → is_blockwise q.code_type ≡ true
        → 0 < q.block_size
        → 0 < length codebook
        → length codebook ≤ 256
        → Returns
            (λ z.
              ((scaled : List A × List A) × (normalize_blocks n q.block_size weight ≡ ok scaled)
                × All2
                    (IsNearest Le (map n.float codebook))
                    (take (length weight) (map n.float (scaled.0)))
                    z.indices)
              × (length z.indices ≡ length weight)
              × (length z.absmax ≡ ceil_div (length weight) q.block_size)
              × (z.codebook ≡ codebook))
            (quantize n q weight (some codebook))
    unfolding quantize chosen_codebook
    quantize-IsNearest q w codebook block hb hc hl =
        let (scaled, runs, (cover, count)) = normalize_blocks-runs q.block_size w hb in
        let centroids = map n.float codebook in
        let size = length-map n.float codebook in
        let (ids, found, (near, long)) =
          argmin_rows-IsNearest centroids (map n.float (scaled.0)) (length w) (omega (arith, size))
            (omega (arith, size)) in
        let as_long = length-take (length w) (map (λ i. i % 256) ids) in
        rw (block, runs, found)
          (
            _,
            refl,
            (
              (scaled, refl, near),
              omega (
                arith,
                as_long,
                long,
                cover,
                length-map (λ (i : ℕ). i % 256) ids,
                length-map n.float (scaled.0),
              ),
              length-map n.bfloat16 (scaled.1) ∙ count,
              refl,
            ),
          )
