-- ===== src/Experts/Executor/Tokens.antt =====
-- Summing a mask by its columns and by its rows.
use block_lut.Prelude.{
  ℕ, zero, suc, ◌+◌, ◌≡◌, refl, subst, List, [], ◌∷◌, map, length, get_or, range', sum, All, arith,
}
use block_lut.Experts.Executor.{RouterMask, column}

sum-map-add :
    (f g : ℕ → ℕ) (ns : List ℕ) → sum (map (λ n. f n + g n) ns) ≡ sum (map f ns) + sum (map g ns)
sum-map-add f g [] = omega arith
sum-map-add f g (n ∷ ns) = omega (arith, sum-map-add f g ns)

sum-map-zero : (ns : List ℕ) → sum (map (λ n. 0) ns) ≡ 0
sum-map-zero [] = refl
sum-map-zero (n ∷ ns) = omega (arith, sum-map-zero ns)

-- A row is read by the range of its indices, here behind `before` others.
sum-range :
    (f : ℕ → ℕ) (first n : ℕ)
    → sum (map f (range' (suc first) n)) ≡ sum (map (λ j. f (suc j)) (range' first n))
sum-range f first zero = refl
sum-range f first (suc n) = omega (arith, sum-range f (suc first) n)

sum-row : (row : List ℕ) → sum (map (λ j. get_or row j 0) (range' 0 (length row))) ≡ sum row
sum-row [] = refl
sum-row (x ∷ row) = omega (arith, sum-range (λ j. get_or (x ∷ row) j 0) 0 (length row), sum-row row)

pub sum-column :
    (num_expert : ℕ) (mask : RouterMask)
    → All (λ row. length row ≡ num_expert) mask
    → sum (map (column mask) (range' 0 num_expert)) ≡ sum (map sum mask)
sum-column num_expert [] h = sum-map-zero (range' 0 num_expert)
sum-column num_expert (row ∷ mask) h = omega (
  arith,
  sum-map-add (λ j. get_or row j 0) (column mask) (range' 0 num_expert),
  (subst (λ n. sum (map (λ j. get_or row j 0) (range' 0 n)) ≡ sum row) h.0 (sum-row row)),
  sum-column num_expert mask h.1,
)
