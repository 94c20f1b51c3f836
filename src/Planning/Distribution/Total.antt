-- ===== src/Planning/Distribution/Total.antt =====
-- The distribution that `CalculateProb` returns adds up to one.
use mathlib.Core.List.{reverse}
use block_lut.Prelude.{
  ℕ, zero, suc, ◌<◌, ◌≡◌, refl, sym, ap, ◌∙◌, List, [], ◌∷◌, length, get_or, arith, length-reverse,
}
use mathlib.Core.Path.{ap₂}
use block_lut.Planning.Scalars.{Arithmetic, IsExact}
use block_lut.Planning.Distribution.{calculate_prob}
use block_lut.Planning.Distribution.Cells.{exactly, calculate_prob-exactly}

module _ {A : Type 0} (n : Arithmetic A) where
  -- The sum of the first `k` values.
  abbrev pub total : (ℕ → A) → ℕ → A
  total f zero = n.zero
  total f (suc k) = n.add (total f k) (f k)

  pub total-cong : (f g : ℕ → A) (k : ℕ) → ((i : ℕ) → i < k → f i ≡ g i) → total f k ≡ total g k
  total-cong f g zero h = refl
  total-cong f g (suc k) h =
      ap₂ n.add (total-cong f g k (λ i l. h i (omega arith))) (h k (omega arith))

  module _ (x : IsExact n) where
    -- (a + b) + (c + d) with the inner terms exchanged
    pub exchange : (a b c d : A) → n.add (n.add a b) (n.add c d) ≡ n.add (n.add a c) (n.add b d)
    exchange a b c d =
        x.add_assoc a b (n.add c d)
        ∙ ap (n.add a)
            (sym (x.add_assoc b c d) ∙ ap (λ s. n.add s d) (x.add_comm b c) ∙ x.add_assoc c b d)
        ∙ sym (x.add_assoc a c (n.add b d))

    pub add_zero : (a : A) → n.add a n.zero ≡ a
    add_zero a = x.add_comm a n.zero ∙ x.zero_add a

    -- There are no more events than there are.
    exactly_none : (ps : List A) (m : ℕ) → length ps < m → exactly n ps m ≡ n.zero
    exactly_none ps zero h = absurd (omega arith)
    exactly_none [] (suc m) h = refl
    exactly_none (p ∷ ps) (suc m) h =
        ap₂ (λ a b. n.add (n.mul a (n.sub n.one p)) (n.mul b p))
          (exactly_none ps (suc m) (omega arith)) (exactly_none ps m (omega arith))
        ∙ ap₂ n.add (x.zero_mul (n.sub n.one p)) (x.zero_mul p)
        ∙ x.zero_add n.zero

    -- One more event.
    total-exactly_cons :
        (p : A) (ps : List A) (k : ℕ)
        → total (exactly n (p ∷ ps)) (suc k)
          ≡ n.add
              (n.mul (total (exactly n ps) (suc k)) (n.sub n.one p))
              (n.mul (total (exactly n ps) k) p)
    total-exactly_cons p ps zero =
        x.zero_add _
        ∙ ap (λ a. n.mul a (n.sub n.one p)) (sym (x.zero_add (exactly n ps 0)))
        ∙ sym (add_zero _)
        ∙ ap (n.add (n.mul (n.add n.zero (exactly n ps 0)) (n.sub n.one p))) (sym (x.zero_mul p))
    total-exactly_cons p ps (suc k) =
        ap (λ s. n.add s (exactly n (p ∷ ps) (suc k))) (total-exactly_cons p ps k)
        ∙ exchange _ _ _ _
        ∙ ap₂ n.add
            (sym (x.add_mul (total (exactly n ps) (suc k)) (exactly n ps (suc k)) (n.sub n.one p)))
            (sym (x.add_mul (total (exactly n ps) k) (exactly n ps k) p))

    total-exactly : (ps : List A) → total (exactly n ps) (suc (length ps)) ≡ n.one
    total-exactly [] = x.zero_add n.one
    total-exactly (p ∷ ps) =
        total-exactly_cons p ps (suc (length ps))
        ∙ ap₂ (λ a b. n.add (n.mul a (n.sub n.one p)) (n.mul b p))
            (ap (n.add (total (exactly n ps) (suc (length ps))))
                (exactly_none ps (suc (length ps)) (omega arith))
              ∙ add_zero _
              ∙ total-exactly ps)
            (total-exactly ps)
        ∙ ap₂ n.add (x.one_mul (n.sub n.one p)) (x.one_mul p)
        ∙ x.sub_add n.one p

    -- With exact arithmetic the cells that `CalculateProb` returns add up to one: no probability
    -- is lost at the end of the array.
    pub total-calculate_prob :
        (probs : List A)
        → total (λ i. get_or (calculate_prob n probs) i n.zero) (length (calculate_prob n probs))
          ≡ n.one
    total-calculate_prob probs =
        let (size, cells) = calculate_prob-exactly n probs in
        ap (total (λ i. get_or (calculate_prob n probs) i n.zero)) size
        ∙ total-cong _ (exactly n (reverse probs)) (suc (length probs))
            (λ i l. cells i (omega arith))
        ∙ ap (λ k. total (exactly n (reverse probs)) (suc k)) (sym (length-reverse probs))
        ∙ total-exactly (reverse probs)
