-- ===== src/Tests/Scaled.antt =====
-- `scale_to_k` in fixed point with one decimal: the cap is 0.9.
use block_lut.Prelude.{
  ℕ, ◌-◌, ◌*◌, ◌/◌, ◌≤◌, ◌<◌, ◌≡◌, refl, false, List, [], ◌∷◌, sum, All, ltb, leb, ◌==◌, ltb→lt,
  arith,
}
use block_lut.Outcome.{ok, raise, index_error}
use block_lut.Planning.Scaling.{Reals, scale_to_k}
use block_lut.Planning.Scaling.Ends.{IsScale, AllCapped, scale_to_k-AllCapped}

abbrev tenths : Reals ℕ
tenths = record {
  zero = 0;
  tol = 1;
  cap = 9;
  sum = sum;
  mul = λ x y. x * y / 10;
  div = λ x y. x * 10 / y;
  minus_count = λ k c. k - 10 * c;
  is_zero = λ x. x == 0;
  less = ltb;
  at_least = λ x y. leb y x;
}

all_below : (xs : List ℕ) (m : ℕ) → sum xs ≤ m → m < 9 → All (λ x. leb 9 x ≡ false) xs
all_below [] m h l = tt
all_below (x ∷ xs) m h l = (ground arith, all_below xs m (omega arith) l)

tenths-IsScale : IsScale tenths (λ x. Unit {0})
tenths-IsScale = record {
  zero_below = refl;
  sum_below = λ xs a h. all_below xs (sum xs) (omega arith) (omega (arith, ltb→lt (sum xs) 1 h));
}

scale_to_k-AllCapped_example : AllCapped tenths 4 (scale_to_k tenths (7 ∷ 1 ∷ 1 ∷ 1 ∷ []) 20)
scale_to_k-AllCapped_example =
    scale_to_k-AllCapped tenths (λ x. Unit {0}) tenths-IsScale (7 ∷ 1 ∷ 1 ∷ 1 ∷ []) 20 refl
      (tt, (tt, (tt, (tt, tt))))

-- 0.7 of 1 would be 1.4 of 2.
scales : scale_to_k tenths (7 ∷ 1 ∷ 1 ∷ 1 ∷ []) 20 ≡ ok (9 ∷ 3 ∷ 3 ∷ 3 ∷ [])
unfolding scale_to_k
scales = refl

-- With as many experts as are chosen, no index is left to be written to.
stops : scale_to_k tenths (1 ∷ 1 ∷ []) 20 ≡ raise index_error
unfolding scale_to_k
stops = refl
