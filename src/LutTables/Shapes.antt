-- ===== src/LutTables/Shapes.antt =====
-- How many indices and scales a weight has, and how long the table for the GPU is.
use block_lut.Prelude.{
  suc, get_or, append-nil, ap, sym, ℕ, ◌-◌, ◌*◌, ◌%◌, ◌<◌, ◌≡◌, refl, ◌∙◌, max, inl, inr, true,
  false, some, List, [], ◌∷◌, ◌++◌, map, length, replicate, ltb, arith, length-append, length-take,
  length-map, length-replicate, lt_or_le,
}
use block_lut.Outcome.{Returns, ok}
use mathlib.Core.List.{flatten}
use block_lut.Split.{ceil_div}
use block_lut.Quantizer.Blocks.{block_rows}
use block_lut.Quantizer.Blocks.Rows.{length-block_rows, length-flatten_rows, rounded_up}
use block_lut.LutTables.{
  Floats, BlockLut, last, pad_lut, load_blocklut, normalize_block, block_absmax,
  quantize_weight_to_blocklut, midpoints,
}

last-runs : {A : Type 0} (xs : List A) → 0 < length xs → Returns (λ _. Unit {0}) (last xs)
unfolding last
last-runs [] h = absurd (omega arith)
last-runs (x ∷ []) h = (x, refl, tt)
last-runs (x ∷ y ∷ xs) h = last-runs (y ∷ xs) (omega arith)

last-get_or :
    {A : Type 0} (xs : List A) (d : A) → 0 < length xs → last xs ≡ ok (get_or xs (length xs - 1) d)
unfolding last
last-get_or [] d h = absurd (omega arith)
last-get_or (x ∷ []) d h = refl
last-get_or (x ∷ y ∷ xs) d h =
    let next : suc (length (y ∷ xs) - 1) ≡ length (x ∷ y ∷ xs) - 1 = omega arith in
    last-get_or (y ∷ xs) d (omega arith) ∙ ap (λ i. ok (get_or (x ∷ y ∷ xs) i d)) next

module _ {A : Type 0} (f : Floats A) where
  -- The table for the GPU: the sorted LUT, and its last entry up to 256.
  pad_lut-ok :
      (xs : List A)
      → 0 < length xs
      → pad_lut f xs ≡ ok (xs ++ replicate (256 - length xs) (get_or xs (length xs - 1) f.zero))
  unfolding pad_lut
  pad_lut-ok xs h = elim (lt_or_le (length xs) 256) [
    | inl l ↦
        let low : ltb (length xs) 256 ≡ true = ground arith in
        rw (pad_lut, low, last-get_or xs f.zero h) refl
    | inr g ↦
        let high : ltb (length xs) 256 ≡ false = ground arith in
        let full : 256 - length xs ≡ 0 = omega arith in
        rw (pad_lut, high, full) (ap (λ ys. ok ys) (sym (append-nil xs)))
  ]

  length-pad_lut :
      (xs : List A) → 0 < length xs → Returns (λ ys. length ys ≡ max 256 (length xs)) (pad_lut f xs)
  unfolding pad_lut
  length-pad_lut xs h = elim (lt_or_le (length xs) 256) [
    | inl l ↦
        let low : ltb (length xs) 256 ≡ true = ground arith in
        let (x, runs, done) = last-runs xs h in
        let copies = 256 - length xs in
        rw (pad_lut, low, runs)
          (_, refl, omega (arith, length-append xs (replicate copies x), length-replicate copies x))
    | inr g ↦
        let high : ltb (length xs) 256 ≡ false = ground arith in
        rw (pad_lut, high) (xs, refl, omega arith)
  ]

  pub load_blocklut-ok :
      (lut : List A)
      → 0 < length (f.sort lut)
      → let sorted = f.sort lut in
        load_blocklut f (some lut)
        ≡ ok (record {
          blocklut_sorted = sorted;
          lut_uint16 = map f.bits (
              sorted ++ replicate (256 - length sorted) (get_or sorted (length sorted - 1) f.zero));
        })
  unfolding load_blocklut
  load_blocklut-ok lut h = rw (pad_lut-ok (f.sort lut) h) refl

  -- With a sort that keeps lengths, a LUT file that is not empty is loaded, and the table for the
  -- GPU has at least 256 entries: exactly 256 for a file of up to 256, and all of a longer one.
  pub load_blocklut-max :
      (lut : List A)
      → ((xs : List A) → length (f.sort xs) ≡ length xs)
      → 0 < length lut
      → Returns
          (λ b. (b.blocklut_sorted ≡ f.sort lut) × (length b.lut_uint16 ≡ max 256 (length lut)))
          (load_blocklut f (some lut))
  unfolding load_blocklut
  load_blocklut-max lut same h =
      let sorted = same lut in
      let (ys, runs, long) = length-pad_lut (f.sort lut) (omega arith) in
      rw runs (_, refl, (refl, omega (arith, length-map f.bits ys)))

  -- Every weight has one index, and every block of 128 weights one scale.
  pub quantize_weight_to_blocklut-length :
      (lut : BlockLut A) (x : List A)
      → (length ((quantize_weight_to_blocklut f lut x).0) ≡ length x)
        × (length ((quantize_weight_to_blocklut f lut x).1) ≡ ceil_div (length x) 128)
  unfolding quantize_weight_to_blocklut normalize_block
  quantize_weight_to_blocklut-length lut x =
      let nb = ceil_div (length x) 128 in
      let padded = x ++ replicate (nb * 128 - length x) f.zero in
      let reach = rounded_up (length x) 127 in
      let whole : length padded ≡ nb * 128 = omega (
        arith,
        reach,
        length-append x (replicate (nb * 128 - length x) f.zero),
        length-replicate (nb * 128 - length x) f.zero,
      ) in
      let blocks = block_rows nb 128 padded in
      let values = flatten (map (normalize_block f) blocks) in
      let index : A → ℕ = λ y. f.searchsorted (midpoints f lut.blocklut_sorted) y % 256 in
      let flat =
        length-flatten_rows (normalize_block f) nb 128 padded (λ row. length-map _ row) whole in
      (
        omega (
          arith,
          reach,
          flat,
          length-take (length x) (map index values),
          length-map index values,
        ),
        length-map (λ b. f.bits (block_absmax f b)) blocks ∙ length-block_rows nb 128 padded,
      )
