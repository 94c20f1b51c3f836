-- ===== src/Planning/Coverage/Symmetric.antt =====
-- Elementary symmetric sums, and their sum over the ways to split a choice.
use mathlib.Core.List.{reverse_aux}
use block_lut.Prelude.{ℕ, zero, suc, ◌-◌, ◌<◌, ◌≡◌, refl, sym, ap, ◌∙◌, List, [], ◌∷◌, arith}
use mathlib.Core.Path.{ap₂}
use block_lut.Planning.Scalars.{Arithmetic, IsExact}
use block_lut.Planning.Distribution.Total.{total, total-cong, exchange, add_zero}

less_zero : (q : ℕ) → q - 0 ≡ q
less_zero q = omega arith

less : (q m : ℕ) → suc q - suc m ≡ q - m
less q m = omega arith

more : (q m : ℕ) → m < suc q → suc q - m ≡ suc (q - m)
more q m l = omega arith

none_left : (q : ℕ) → suc q - suc q ≡ 0
none_left q = omega arith

module _ {A : Type 0} (n : Arithmetic A) where
  -- The sum, over the choices of `m` of the elements, of the product of what is chosen.
  abbrev pub symmetric : ℕ → List A → A
  symmetric zero xs = n.one
  symmetric (suc m) [] = n.zero
  symmetric (suc m) (x ∷ xs) = n.add (symmetric (suc m) xs) (n.mul x (symmetric m xs))

  abbrev pub split_sum : (ℕ → A) → (ℕ → A) → ℕ → A
  split_sum f g q = total n (λ m. n.mul (f m) (g (q - m))) (suc q)

  module _ (x : IsExact n) where
    mul_add : (a b c : A) → n.mul a (n.add b c) ≡ n.add (n.mul a b) (n.mul a c)
    mul_add a b c =
        x.mul_comm a (n.add b c) ∙ x.add_mul b c a ∙ ap₂ n.add (x.mul_comm b a) (x.mul_comm c a)

    mul_zero : (a : A) → n.mul a n.zero ≡ n.zero
    mul_zero a = x.mul_comm a n.zero ∙ x.zero_mul a

    total-front : (f : ℕ → A) (k : ℕ) → total n f (suc k) ≡ n.add (f 0) (total n (λ m. f (suc m)) k)
    total-front f zero = x.zero_add (f 0) ∙ sym (add_zero n x (f 0))
    total-front f (suc k) =
        ap (λ s. n.add s (f (suc k))) (total-front f k) ∙ x.add_assoc (f 0) _ (f (suc k))

    total-zero : (k : ℕ) → total n (λ m. n.zero) k ≡ n.zero
    total-zero zero = refl
    total-zero (suc k) = ap (λ s. n.add s n.zero) (total-zero k) ∙ x.zero_add n.zero

    total-add :
        (f g : ℕ → A) (k : ℕ)
        → total n (λ m. n.add (f m) (g m)) k ≡ n.add (total n f k) (total n g k)
    total-add f g zero = sym (x.zero_add n.zero)
    total-add f g (suc k) =
        ap (λ s. n.add s (n.add (f k) (g k))) (total-add f g k)
        ∙ exchange n x (total n f k) (total n g k) (f k) (g k)

    total-mul : (a : A) (f : ℕ → A) (k : ℕ) → total n (λ m. n.mul a (f m)) k ≡ n.mul a (total n f k)
    total-mul a f zero = sym (mul_zero a)
    total-mul a f (suc k) =
        ap (λ s. n.add s (n.mul a (f k))) (total-mul a f k) ∙ sym (mul_add a (total n f k) (f k))

    -- One more element on the left.
    split_left :
        (a : A) (f f' g : ℕ → A) (q : ℕ)
        → f 0 ≡ f' 0
        → ((m : ℕ) → f (suc m) ≡ n.add (f' (suc m)) (n.mul a (f' m)))
        → split_sum f g (suc q) ≡ n.add (split_sum f' g (suc q)) (n.mul a (split_sum f' g q))
    split_left a f f' g q z s =
        total-front (λ m. n.mul (f m) (g (suc q - m))) (suc q)
        ∙ ap₂ n.add (ap (λ b. n.mul b (g (suc q - 0))) z) (
            total-cong n (λ m. n.mul (f (suc m)) (g (suc q - suc m)))
              (λ m.
                n.add (n.mul (f' (suc m)) (g (suc q - suc m))) (n.mul a (n.mul (f' m) (g (q - m)))))
              (suc q)
              (λ m l.
                ap (λ b. n.mul b (g (suc q - suc m))) (s m)
                ∙ x.add_mul (f' (suc m)) (n.mul a (f' m)) (g (suc q - suc m))
                ∙ ap (n.add (n.mul (f' (suc m)) (g (suc q - suc m)))) (
                    x.mul_assoc a (f' m) (g (suc q - suc m))
                    ∙ ap (λ i. n.mul a (n.mul (f' m) (g i))) (less q m)))
            ∙ total-add (λ m. n.mul (f' (suc m)) (g (suc q - suc m)))
                (λ m. n.mul a (n.mul (f' m) (g (q - m)))) (suc q)
            ∙ ap (n.add (total n (λ m. n.mul (f' (suc m)) (g (suc q - suc m))) (suc q)))
                (total-mul a (λ m. n.mul (f' m) (g (q - m))) (suc q)))
        ∙ sym (x.add_assoc _ _ _)
        ∙ ap (λ b. n.add b (n.mul a (split_sum f' g q)))
            (sym (total-front (λ m. n.mul (f' m) (g (suc q - m))) (suc q)))

    -- One more element on the right.
    split_right :
        (a : A) (f g g' : ℕ → A) (q : ℕ)
        → g 0 ≡ g' 0
        → ((m : ℕ) → g (suc m) ≡ n.add (g' (suc m)) (n.mul a (g' m)))
        → split_sum f g (suc q) ≡ n.add (split_sum f g' (suc q)) (n.mul a (split_sum f g' q))
    split_right a f g g' q z s =
        ap₂ n.add
          (total-cong n (λ m. n.mul (f m) (g (suc q - m)))
              (λ m. n.add (n.mul (f m) (g' (suc q - m))) (n.mul a (n.mul (f m) (g' (q - m)))))
              (suc q)
              (λ m l.
                ap (λ i. n.mul (f m) (g i)) (more q m l)
                ∙ ap (n.mul (f m)) (s (q - m))
                ∙ mul_add (f m) (g' (suc (q - m))) (n.mul a (g' (q - m)))
                ∙ ap₂ n.add (ap (λ i. n.mul (f m) (g' i)) (sym (more q m l))) (
                    sym (x.mul_assoc (f m) a (g' (q - m)))
                    ∙ ap (λ b. n.mul b (g' (q - m))) (x.mul_comm (f m) a)
                    ∙ x.mul_assoc a (f m) (g' (q - m))))
            ∙ total-add (λ m. n.mul (f m) (g' (suc q - m)))
                (λ m. n.mul a (n.mul (f m) (g' (q - m)))) (suc q)
            ∙ ap (n.add (total n (λ m. n.mul (f m) (g' (suc q - m))) (suc q)))
                (total-mul a (λ m. n.mul (f m) (g' (q - m))) (suc q)))
          (ap (λ i. n.mul (f (suc q)) (g i)) (none_left q)
            ∙ ap (n.mul (f (suc q))) z
            ∙ ap (λ i. n.mul (f (suc q)) (g' i)) (sym (none_left q)))
        ∙ x.add_assoc _ _ _
        ∙ ap (n.add (total n (λ m. n.mul (f m) (g' (suc q - m))) (suc q))) (x.add_comm _ _)
        ∙ sym (x.add_assoc _ _ _)

    -- It does not matter on which side of the split an element stands.
    moved :
        (a : A) (us vs : List A) (q : ℕ)
        → split_sum (λ m. symmetric m (a ∷ us)) (λ m. symmetric m vs) q
          ≡ split_sum (λ m. symmetric m us) (λ m. symmetric m (a ∷ vs)) q
    moved a us vs zero = refl
    moved a us vs (suc q) =
        split_left a (λ m. symmetric m (a ∷ us)) (λ m. symmetric m us) (λ m. symmetric m vs) q refl
          (λ m. refl)
        ∙ sym (
            split_right a (λ m. symmetric m us) (λ m. symmetric m (a ∷ vs)) (λ m. symmetric m vs) q
              refl (λ m. refl))

    pub split_symmetric :
        (us vs : List A) (q : ℕ)
        → split_sum (λ m. symmetric m us) (λ m. symmetric m vs) q ≡ symmetric q (reverse_aux us vs)
    split_symmetric [] vs q =
        total-front (λ m. n.mul (symmetric m []) (symmetric (q - m) vs)) q
        ∙ ap₂ n.add (x.one_mul (symmetric (q - 0) vs) ∙ ap (λ i. symmetric i vs) (less_zero q)) (
            total-cong n (λ m. n.mul n.zero (symmetric (q - suc m) vs)) (λ m. n.zero) q
              (λ m l. x.zero_mul (symmetric (q - suc m) vs))
            ∙ total-zero q)
        ∙ add_zero n x (symmetric q vs)
    split_symmetric (u ∷ us) vs q = moved u us vs q ∙ split_symmetric us (u ∷ vs) q
