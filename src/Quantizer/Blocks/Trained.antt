-- ===== src/Quantizer/Blocks/Trained.antt =====
-- What `train` leaves in a quantizer.
use block_lut.Prelude.{
  ◌⊎◌, inl, inr, ℕ, zero, suc, ◌-◌, ◌*◌, ◌%◌, ◌≤◌, ◌<◌, ◌≡◌, refl, ap, subst, true, some, List,
  length, replicate, get_or, arith, length-append, length-map, length-replicate,
}
use block_lut.Outcome.{Returns, Returns-bind}
use block_lut.Split.{CodeType, ceil_div}
use block_lut.Quantizer.Numbers.{Numbers, IsShaped}
use block_lut.Quantizer.State.{LutQuantizer}
use block_lut.Quantizer.Kmeans.{store_codebook}
use block_lut.Quantizer.Kmeans.Stored.{train_kmeans-store_codebook}
use block_lut.Quantizer.Nested.{greedy_merge, has_codebook, train_nested_codebooks}
use block_lut.Quantizer.Nested.Merging.{length-greedy_merge}
use block_lut.Quantizer.Nested.Tables.{build_mapped_table-get_or}
use block_lut.Quantizer.Blocks.Rows.{length-block_rows, length-flatten_rows, rounded_up}
use block_lut.Quantizer.Blocks.{
  train_as, blocks_of, padded, normalize, normalized, train_basic_lut, train_block_lut, train,
}

-- What a quantizer holds after nested training: a codebook of 64 centroids and two tables of 256
-- entries, which go round the codebook and round the 16 centroids merged from it.
pub record HasNested {A : Type 0} (n : Numbers A) (q : LutQuantizer A) : Type 0 where
  pub codebook : List A
  pub mapped64 : List A
  pub mapped16 : List A
  pub stored : q.lut_codebook ≡ some codebook
  pub stored64 : q.nested_mapped64 ≡ some mapped64
  pub stored16 : q.nested_mapped16 ≡ some mapped16
  pub size : length codebook ≡ 64
  pub size64 : length mapped64 ≡ 256
  pub size16 : length mapped16 ≡ 256
  pub entries64 :
      (i : ℕ) (d : A)
      → i < 256
      → get_or mapped64 i (n.bfloat16 d) ≡ n.bfloat16 (get_or codebook (i % 64) d)
  pub entries16 :
      (i : ℕ) (d : A)
      → i < 256
      → get_or mapped16 i (n.bfloat16 d)
        ≡ n.bfloat16 (get_or (greedy_merge n codebook 16) (i % 16) d)

module _ {A : Type 0} (n : Numbers A) where
  length-padded : (k : ℕ) (xs : List A) → length xs ≤ k → length (padded n k xs) ≡ k
  unfolding padded
  length-padded k xs h = omega (
    arith,
    length-append xs (replicate (k - length xs) n.zero),
    length-replicate (k - length xs) n.zero,
  )

  pub blocks_of-runs :
      (block_size : ℕ) (xs : List A)
      → 0 < block_size
      → Returns
          (λ blocks.
            (length (normalized n blocks) ≡ ceil_div (length xs) block_size * block_size)
            × (length blocks ≡ ceil_div (length xs) block_size)
            × (length xs ≤ length (normalized n blocks)))
          (blocks_of n block_size xs)
  unfolding blocks_of normalized normalize
  blocks_of-runs zero xs h = absurd (omega arith)
  blocks_of-runs (suc b) xs h =
      let k = ceil_div (length xs) (suc b) in
      let covered = rounded_up (length xs) b in
      let p = padded n (k * suc b) xs in
      let long =
        length-flatten_rows (normalize n) k (suc b) p (λ row. length-map _ row)
          (length-padded (k * suc b) xs covered) in
      (_, refl, (long, length-block_rows k (suc b) p, omega (arith, long, covered)))

  module _ (s : IsShaped n) where
    train_block_lut-runs :
        (q : LutQuantizer A) (xs : List A) (n_iter : ℕ)
        → 0 < length xs
        → 0 < q.block_size
        → 0 < q.lut_size
        → Returns
            (λ r.
              (0 < length (r.0))
              × ((codebook : List A) × (r.1 ≡ store_codebook q codebook)
                  × (length codebook ≡ q.lut_size)))
            (train_block_lut n q xs n_iter)
    unfolding train_block_lut
    train_block_lut-runs q xs n_iter hx hb hl =
        Returns-bind _ _ (blocks_of-runs q.block_size xs hb) (λ blocks sizes.
          let (long, count, cover) = sizes in
          Returns-bind _ _
            (train_kmeans-store_codebook n s q 0 (normalized n blocks) q.lut_size n_iter 200000 hl
              (omega arith) (omega arith))
            (λ r stored. (_, refl, (omega arith, (r.0, stored.0, stored.1)))))

    train_nested_codebooks-runs :
        (q : LutQuantizer A) (draw : ℕ) (xs : List A) (n_iter : ℕ)
        → has_codebook q ≡ true
        → 0 < length xs
        → Returns
            (λ nested. HasNested n nested × (nested.code_type ≡ q.code_type))
            (train_nested_codebooks n q draw xs n_iter)
    unfolding train_nested_codebooks store_codebook
    train_nested_codebooks-runs q draw xs n_iter has l =
        let (r, runs, (e, size)) =
          train_kmeans-store_codebook n s q draw xs 64 n_iter 200000 (omega arith) l
            (omega arith) in
        let merged = length-greedy_merge n (r.0) 16 s in
        let (t64, runs64, (size64, entries64)) =
          build_mapped_table-get_or n (r.0) 256 (omega (arith, size)) (omega (arith, size)) in
        let (t16, runs16, (size16, entries16)) =
          build_mapped_table-get_or n (greedy_merge n (r.0) 16) 256 (omega (arith, size, merged))
            (omega (arith, size, merged)) in
        let short : length (greedy_merge n (r.0) 16) ≡ 16 = omega (arith, size, merged) in
        rw (has, runs, runs64, runs16)
          (
            _,
            refl,
            (
              record {
                codebook = r.0;
                mapped64 = t64;
                mapped16 = t16;
                stored = rw e refl;
                stored64 = refl;
                stored16 = refl;
                size = size;
                size64 = size64;
                size16 = size16;
                entries64 =
                    subst
                      (λ k.
                        (i : ℕ) (d : A)
                        → i < 256
                        → get_or t64 i (n.bfloat16 d) ≡ n.bfloat16 (get_or (r.0) (i % k) d))
                      size entries64;
                entries16 =
                    subst
                      (λ k.
                        (i : ℕ) (d : A)
                        → i < 256
                        → get_or t16 i (n.bfloat16 d)
                          ≡ n.bfloat16 (get_or (greedy_merge n (r.0) 16) (i % k) d))
                      short entries16;
              },
              rw e refl,
            ),
          )

    -- From a tensor that is not empty and a positive block size and LUT size, training with
    -- NESTEDLUT returns. What is stored as the codebook of the quantizer is the one of 64
    -- centroids, not the one of `lut_size` that was trained first; the two tables have 256
    -- entries, entry `i` being centroid `i` modulo 64 of that codebook, and centroid `i` modulo 16
    -- of what is merged from it.
    pub train-HasNested :
        (q : LutQuantizer A) (xs : List A) (n_iter : ℕ)
        → q.code_type ≡ CodeType.nestedlut
        → 0 < length xs
        → 0 < q.block_size
        → 0 < q.lut_size
        → Returns (HasNested n) (train n q xs n_iter)
    unfolding train train_as store_codebook has_codebook
    train-HasNested q xs n_iter nested hx hb hl =
        let (r, runs, (l, (codebook, stored, size))) = train_block_lut-runs q xs n_iter hx hb hl in
        let (final, ends, (shape, kept)) =
          train_nested_codebooks-runs (r.1) 2 (r.0) n_iter (rw stored refl) l in
        let branch = ap (λ c. train_as n c q xs n_iter) nested in
        rw (branch, runs, ends) (final, refl, shape)

    -- From a tensor that is not empty and a positive block size and LUT size, training with LUT or
    -- BLOCKLUT returns and changes nothing but the codebook, which has `lut_size` centroids.
    pub train-store_codebook :
        (q : LutQuantizer A) (xs : List A) (n_iter : ℕ)
        → (q.code_type ≡ CodeType.lut) ⊎ (q.code_type ≡ CodeType.blocklut)
        → 0 < length xs
        → 0 < q.block_size
        → 0 < q.lut_size
        → Returns
            (λ trained.
              (codebook : List A) × (trained ≡ store_codebook q codebook)
              × (length codebook ≡ q.lut_size))
            (train n q xs n_iter)
    unfolding train train_as train_basic_lut
    train-store_codebook q xs n_iter (inl basic) hx hb hl =
        let (r, runs, (e, size)) =
          train_kmeans-store_codebook n s q 0 xs q.lut_size n_iter 200000 hl hx (omega arith) in
        let branch = ap (λ c. train_as n c q xs n_iter) basic in
        rw (branch, runs) (r.1, refl, (r.0, e, size))
    train-store_codebook q xs n_iter (inr block) hx hb hl =
        let (r, runs, (l, stored)) = train_block_lut-runs q xs n_iter hx hb hl in
        let branch = ap (λ c. train_as n c q xs n_iter) block in
        rw (branch, runs) (r.1, refl, stored)
