-- ===== src/Quantizer/Kmeans/Stored.antt =====
-- `_train_kmeans` returns, with as many centroids as it was asked for.
use block_lut.Prelude.{
  ℕ, zero, suc, ◌+◌, ◌-◌, ◌<◌, min, ◌≡◌, refl, List, [], ◌∷◌, map, length, take, replicate, ltb,
  All, arith, length-append, length-take, length-replicate, length-set_at, length-map, Bool-cases,
  inl, inr,
}
use block_lut.Outcome.{Returns, Returns-bind}
use block_lut.Quantizer.Numbers.{Numbers, IsShaped, gather, gather-length}
use block_lut.Quantizer.State.{LutQuantizer}
use block_lut.Quantizer.Kmeans.{
  assign_chunks, argmin_rows, assign, chunk_count, update_centroid, update_centroids, members,
  iterate, sample, first_centroids, train_kmeans, store_codebook,
}

All-take : (P : ℕ → Type 0) (k : ℕ) (xs : List ℕ) → All P xs → All P (take k xs)
All-take P zero xs h = tt
All-take P (suc k) [] h = tt
All-take P (suc k) (x ∷ xs) (h, hs) = (h, All-take P k xs hs)

module _ {A : Type 0} (n : Numbers A) where
  argmin_rows-runs :
      (centroids xs : List A)
      → 0 < length centroids
      → Returns (λ _. Unit {0}) (argmin_rows n centroids xs)
  unfolding argmin_rows
  argmin_rows-runs [] xs h = absurd (omega arith)
  argmin_rows-runs (c ∷ centroids) xs h = (_, refl, tt)

  assign_chunks-runs :
      (centroids : List A) (chunks : List (List A))
      → 0 < length centroids
      → Returns (λ _. Unit {0}) (assign_chunks n centroids chunks)
  unfolding assign_chunks
  assign_chunks-runs centroids [] h = (_, refl, tt)
  assign_chunks-runs centroids (chunk ∷ chunks) h =
      Returns-bind _ _ (argmin_rows-runs centroids chunk h)
        (λ a _. Returns-bind _ _ (assign_chunks-runs centroids chunks h) (λ b _. (_, refl, tt)))

  chunk_count-runs : (k c : ℕ) → 0 < c → Returns (λ _. Unit {0}) (chunk_count k c)
  unfolding chunk_count
  chunk_count-runs k zero h = absurd (omega arith)
  chunk_count-runs k (suc c) h = (_, refl, tt)

  assign-runs :
      (centroids xs : List A)
      → 0 < length centroids
      → 0 < length xs
      → Returns (λ _. Unit {0}) (assign n centroids xs)
  unfolding assign
  assign-runs centroids xs h l =
      Returns-bind _ _ (chunk_count-runs (length xs) (min 65536 (length xs)) (omega arith))
        (λ rounds _. assign_chunks-runs centroids _ h)

  length-update_centroid :
      (i : ℕ) (xs centroids : List A) → length (update_centroid n i xs centroids) ≡ length centroids
  unfolding update_centroid
  length-update_centroid i [] centroids = refl
  length-update_centroid i (x ∷ xs) centroids = length-set_at centroids i _

  length-update_centroids :
      (rounds i : ℕ) (assignments : List ℕ) (xs centroids : List A)
      → length (update_centroids n rounds i assignments xs centroids) ≡ length centroids
  unfolding update_centroids
  length-update_centroids zero i assignments xs centroids = refl
  length-update_centroids (suc rounds) i assignments xs centroids = omega (
    arith,
    length-update_centroids rounds (i + 1) assignments xs
        (update_centroid n i (members i assignments xs) centroids),
    length-update_centroid i (members i assignments xs) centroids,
  )

  iterate-runs :
      (n_iter k : ℕ) (xs centroids : List A)
      → 0 < length centroids
      → 0 < length xs
      → Returns (λ c. length c ≡ length centroids) (iterate n n_iter k xs centroids)
  unfolding iterate
  iterate-runs zero k xs centroids h l = (_, refl, refl)
  iterate-runs (suc n_iter) k xs centroids h l =
      Returns-bind _ _ (assign-runs centroids xs h l) (λ a _.
        let same = length-update_centroids k 0 a xs centroids in
        let (c, runs, long) =
          iterate-runs n_iter k xs (update_centroids n k 0 a xs centroids) (omega arith) l in
        (c, runs, omega arith))

  module _ (s : IsShaped n) where
    drawn-runs :
        (draw k : ℕ) (xs : List A)
        → Returns
            (λ ys. length ys ≡ min k (length xs))
            (gather xs (take k (n.randperm draw (length xs))))
    drawn-runs draw k xs =
        let drawn = n.randperm draw (length xs) in
        let (ys, runs, long) =
          gather-length xs (take k drawn) (All-take _ k drawn (s.randperm-All draw (length xs))) in
        (ys, runs, omega (arith, long, length-take k drawn, s.length-randperm draw (length xs)))

    sample-runs :
        (draw m : ℕ) (xs : List A)
        → 0 < m
        → 0 < length xs
        → Returns (λ ys. 0 < length ys) (sample n draw m xs)
    unfolding sample
    sample-runs draw m xs h l = elim (Bool-cases (ltb m (length xs))) [
      | inl t ↦ rw t (let (ys, runs, long) = drawn-runs draw m xs in (ys, runs, omega arith))
      | inr f ↦ rw f (xs, refl, l)
    ]

    first_centroids-runs :
        (draw k : ℕ) (xs : List A) → Returns (λ c. length c ≡ k) (first_centroids n draw k xs)
    unfolding first_centroids
    first_centroids-runs draw k xs =
        Returns-bind _ _ (drawn-runs draw (min k (length xs)) xs) (λ c long. (
          _,
          refl,
          ground (
            arith,
            length-append c (replicate (k - min k (length xs)) n.zero),
            length-replicate (k - min k (length xs)) n.zero,
          ),
        ))

    -- With a permutation and a sort that keep lengths, at least one cluster and at least one
    -- value to train on, the training returns: it stores the codebook that it returns, and the
    -- codebook has one entry for each cluster.
    pub train_kmeans-store_codebook :
        (q : LutQuantizer A) (draw : ℕ) (xs : List A) (k n_iter max_samples : ℕ)
        → 0 < k
        → 0 < length xs
        → 0 < max_samples
        → Returns
            (λ r. (r.1 ≡ store_codebook q (r.0)) × (length (r.0) ≡ k))
            (train_kmeans n q draw xs k n_iter max_samples)
    unfolding train_kmeans
    train_kmeans-store_codebook q draw xs k n_iter m hk hx hm =
        Returns-bind _ _
          (sample-runs draw m (map n.float xs) hm (omega (arith, length-map n.float xs)))
          (λ kept l. Returns-bind _ _ (first_centroids-runs (draw + 1) k kept) (λ first e.
            Returns-bind _ _ (iterate-runs n_iter k kept first (omega arith) l) (λ trained e2. (
              _,
              refl,
              (refl, omega (arith, length-map n.bfloat16 (n.sort trained), s.length-sort trained)),
            ))))
