-- ===== src/Quantizer/Nested/Tables.antt =====
-- The mapped tables: their size, and which centroid each entry is.
use native.Mathlib.Nat.{div-add-mod, mod-lt, mod-eq_of_lt, mod-eq-sub-mod}
use block_lut.Prelude.{
  lt→ltb, lt_or_le, append_assoc, append-nil, ℕ, zero, suc, ◌+◌, ◌-◌, ◌*◌, ◌/◌, ◌%◌, ◌≤◌, ◌<◌, ◌≡◌,
  refl, sym, ap, ◌∙◌, true, List, [], ◌∷◌, ◌++◌, map, length, take, get_or, ltb, leb, arith,
  length-append, length-take, length-map, inl, inr, if◌then◌else◌,
}
use block_lut.Outcome.{Returns}
use block_lut.Quantizer.Numbers.{Numbers}
use block_lut.Quantizer.Nested.{tile, repeat_to, build_mapped_table}

module _ {A : Type 0} where
  get_or-append_left :
      (xs ys : List A) (i : ℕ) (d : A) → i < length xs → get_or (xs ++ ys) i d ≡ get_or xs i d
  get_or-append_left [] ys i d h = absurd (omega arith)
  get_or-append_left (x ∷ xs) ys zero d h = refl
  get_or-append_left (x ∷ xs) ys (suc i) d h = get_or-append_left xs ys i d (omega arith)

  get_or-append_right :
      (xs ys : List A) (i : ℕ) (d : A)
      → length xs ≤ i
      → get_or (xs ++ ys) i d ≡ get_or ys (i - length xs) d
  get_or-append_right [] ys i d h = let e : i - 0 ≡ i = omega arith in rw e refl
  get_or-append_right (x ∷ xs) ys zero d h = absurd (omega arith)
  get_or-append_right (x ∷ xs) ys (suc i) d h =
      let e : suc i - suc (length xs) ≡ i - length xs = omega arith in
      rw e (get_or-append_right xs ys i d (omega arith))

  get_or-take :
      (k : ℕ) (xs : List A) (i : ℕ) (d : A) → i < k → get_or (take k xs) i d ≡ get_or xs i d
  get_or-take zero xs i d h = absurd (omega arith)
  get_or-take (suc k) [] i d h = refl
  get_or-take (suc k) (x ∷ xs) zero d h = refl
  get_or-take (suc k) (x ∷ xs) (suc i) d h = get_or-take k xs i d (omega arith)

  length-tile : (k : ℕ) (xs : List A) → length (tile k xs) ≡ k * length xs
  unfolding tile
  length-tile zero xs = omega arith
  length-tile (suc k) xs = grind (arith, length-append xs (tile k xs), length-tile k xs)

  -- Entry `i` of a tiled list, with the remainder `ys` after it, goes round the list.
  get_or-tile :
      (k : ℕ) (xs : List A) (r i : ℕ) (d : A)
      → r < length xs
      → i < k * length xs + r
      → get_or (tile k xs ++ take r xs) i d ≡ get_or xs (i % length xs) d
  unfolding tile
  get_or-tile zero xs r i d h l =
      rw (mod-eq_of_lt {n = i} {m = length xs} (omega arith), get_or-take r xs i d (omega arith))
        refl
  get_or-tile (suc k) xs r i d h l = elim (lt_or_le i (length xs)) [
    | inl s ↦ rw (append_assoc xs (tile k xs) (take r xs)) (
        get_or-append_left xs (tile k xs ++ take r xs) i d s
        ∙ rw (mod-eq_of_lt {n = i} {m = length xs} s) refl)
    | inr g ↦
        rw (append_assoc xs (tile k xs) (take r xs), mod-eq-sub-mod {n = i} {m = length xs} g)
          (get_or-append_right xs (tile k xs ++ take r xs) i d g
            ∙ get_or-tile k xs r (i - length xs) d h (grind arith))
  ]

  -- A remainder of 0 adds nothing.
  with_remainder :
      (t : List A) (r : ℕ) (xs : List A) → (if ltb 0 r then t ++ take r xs else t) ≡ t ++ take r xs
  with_remainder t zero xs = sym (append-nil t)
  with_remainder t (suc r) xs =
      let more : ltb 0 (suc r) ≡ true = lt→ltb 0 (suc r) (omega arith) in rw more refl

  -- The table before its entries become bf16.
  repeat_to-runs :
      (xs : List A) (table_size : ℕ)
      → 0 < length xs
      → Returns
          (λ t.
            (length t ≡ table_size)
            × ((i : ℕ) (d : A) → i < table_size → get_or t i d ≡ get_or xs (i % length xs) d))
          (repeat_to xs table_size)
  unfolding repeat_to
  repeat_to-runs [] size h = absurd (omega arith)
  repeat_to-runs (c ∷ cs) size h =
      let xs = c ∷ cs in
      let r = size % length xs in
      let whole = div-add-mod size (length xs) in
      let short = mod-lt size {m = length xs} h in
      rw (with_remainder (tile (size / length xs) xs) r xs) (
        _,
        refl,
        (
          grind (
            arith,
            length-append (tile (size / length xs) xs) (take r xs),
            length-tile (size / length xs) xs,
            length-take r xs,
          ),
          λ i d l. get_or-tile (size / length xs) xs r i d short (grind arith),
        ),
      )

  get_or-map :
      {B : Type 0} (f : A → B) (xs : List A) (i : ℕ) (d : A)
      → get_or (map f xs) i (f d) ≡ f (get_or xs i d)
  get_or-map f [] i d = refl
  get_or-map f (x ∷ xs) zero d = refl
  get_or-map f (x ∷ xs) (suc i) d = get_or-map f xs i d

-- From at least one centroid, and not more than the table has entries, `_build_mapped_table`
-- returns a table of exactly `table_size` entries, of which entry `i` is centroid `i` modulo
-- their number, rounded to bf16.
pub build_mapped_table-get_or :
    {A : Type 0} (n : Numbers A) (centroids : List A) (table_size : ℕ)
    → 0 < length centroids
    → length centroids ≤ table_size
    → Returns
        (λ table.
          (length table ≡ table_size)
          × ((i : ℕ) (d : A)
              → i < table_size
              → get_or table i (n.bfloat16 d)
                ≡ n.bfloat16 (get_or centroids (i % length centroids) d)))
        (build_mapped_table n centroids table_size)
unfolding build_mapped_table
build_mapped_table-get_or n c size h l =
    let fits : leb (length c) size ≡ true = ground arith in
    let (t, runs, (long, entries)) = repeat_to-runs c size h in
    rw (fits, runs)
      (
        map n.bfloat16 t,
        refl,
        (
          length-map n.bfloat16 t ∙ long,
          λ i d b. get_or-map n.bfloat16 t i d ∙ ap n.bfloat16 (entries i d b),
        ),
      )
