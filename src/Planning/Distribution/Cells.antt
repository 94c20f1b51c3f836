-- ===== src/Planning/Distribution/Cells.antt =====
-- The loops of `CalculateProb` against the recursion that defines the distribution.
use native.Mathlib.Decide.{ℕ_discrete}
use mathlib.Core.List.{reverse, reverse_aux}
use block_lut.Prelude.{
  ℕ, zero, suc, ◌<◌, ◌≤◌, ◌≡◌, ◌≢◌, refl, sym, ap, ◌∙◌, subst, List, [], ◌∷◌, length, get_or,
  set_at, replicate, arith, length-set_at, get_or-set_at_same, get_or-set_at_other,
  get_or-replicate, length-replicate,
}
use mathlib.Core.Path.{ap₂}
use block_lut.Planning.Scalars.{Arithmetic}
use block_lut.Planning.Distribution.{update_cells, add_prob, add_probs, calculate_prob}

below : {i j : ℕ} → i ≢ j → i < suc j → i < j
below e h = ground arith

module _ {A : Type 0} (n : Arithmetic A) where
  -- The probability that exactly `m` of the listed events happen.
  abbrev pub exactly : List A → ℕ → A
  exactly [] zero = n.one
  exactly [] (suc m) = n.zero
  exactly (p ∷ ps) zero = n.mul (exactly ps zero) (n.sub n.one p)
  exactly (p ∷ ps) (suc m) =
      n.add (n.mul (exactly ps (suc m)) (n.sub n.one p)) (n.mul (exactly ps m) p)

  length-update_cells :
      (j : ℕ) (p : A) (out : List A) → length (update_cells n j p out) ≡ length out
  unfolding update_cells
  length-update_cells zero p out = refl
  length-update_cells (suc j) p out =
      length-update_cells j p (set_at out (suc j) _) ∙ length-set_at out (suc j) _

  update_cells_above :
      (j i : ℕ) (p : A) (out : List A)
      → j < i
      → get_or (update_cells n j p out) i n.zero ≡ get_or out i n.zero
  unfolding update_cells
  update_cells_above zero i p out h = refl
  update_cells_above (suc j) i p out h =
      update_cells_above j i p (set_at out (suc j) _) (omega arith)
      ∙ get_or-set_at_other out (suc j) i _ n.zero (λ e. absurd (omega (arith, e)))

  update_cells_first :
      (j : ℕ) (p : A) (out : List A)
      → get_or (update_cells n j p out) 0 n.zero ≡ get_or out 0 n.zero
  unfolding update_cells
  update_cells_first zero p out = refl
  update_cells_first (suc j) p out =
      update_cells_first j p (set_at out (suc j) _)
      ∙ get_or-set_at_other out (suc j) 0 _ n.zero (λ e. absurd (omega (arith, e)))

  -- Each cell is computed from the old values.
  update_cells_in :
      (j i : ℕ) (p : A) (out : List A)
      → i < j
      → j < length out
      → get_or (update_cells n j p out) (suc i) n.zero
        ≡ n.add (n.mul (get_or out (suc i) n.zero) (n.sub n.one p)) (n.mul (get_or out i n.zero) p)
  unfolding update_cells
  update_cells_in zero i p out h l = absurd (omega arith)
  update_cells_in (suc j) i p out h l = elim (ℕ_discrete i j) [
    | yes e ↦
        subst
          (λ k.
            get_or (update_cells n (suc j) p out) (suc k) n.zero
            ≡ n.add (n.mul (get_or out (suc k) n.zero) (n.sub n.one p))
                (n.mul (get_or out k n.zero) p))
          (sym e)
          (update_cells_above j (suc j) p (set_at out (suc j) _) (omega arith)
            ∙ get_or-set_at_same out (suc j) _ n.zero l)
    | no e ↦
        update_cells_in j i p (set_at out (suc j) _) (below e h)
          (omega (arith, l, length-set_at out (suc j) _))
        ∙ ap₂ (λ a b. n.add (n.mul a (n.sub n.one p)) (n.mul b p))
            (get_or-set_at_other out (suc j) (suc i) _ n.zero
              (λ d. absurd (omega (arith, d, below e h))))
            (get_or-set_at_other out (suc j) i _ n.zero (λ d. absurd (omega (arith, d, h))))
  ]

  -- The array holds the distribution of the events so far.
  abbrev Holds : ℕ → List A → List A → Type 0
  Holds k ps out = (length out ≡ suc k) × ((i : ℕ) → i ≤ k → get_or out i n.zero ≡ exactly ps i)

  add_prob-Holds :
      (k : ℕ) (p : A) (ps out : List A) → Holds k ps out → Holds k (p ∷ ps) (add_prob n k p out)
  unfolding add_prob
  add_prob-Holds k p ps out h = (
    length-set_at (update_cells n k p out) 0 _ ∙ length-update_cells k p out ∙ h.0,
    λ i l. cell i l,
  )
    where
      cell : (i : ℕ) → i ≤ k → get_or (add_prob n k p out) i n.zero ≡ exactly (p ∷ ps) i
      cell zero l =
          get_or-set_at_same (update_cells n k p out) 0 _ n.zero
            (omega (arith, h.0, length-update_cells k p out))
          ∙ ap (λ a. n.mul a (n.sub n.one p)) (update_cells_first k p out ∙ h.1 0 (omega arith))
      cell (suc m) l =
          get_or-set_at_other (update_cells n k p out) 0 (suc m) _ n.zero
            (λ d. absurd (omega (arith, d)))
          ∙ update_cells_in k m p out (omega arith) (omega (arith, h.0))
          ∙ ap₂ (λ a b. n.add (n.mul a (n.sub n.one p)) (n.mul b p)) (h.1 (suc m) l)
              (h.1 m (omega arith))

  add_probs-Holds :
      (k : ℕ) (probs ps out : List A)
      → Holds k ps out
      → Holds k (reverse_aux probs ps) (add_probs n k probs out)
  unfolding add_probs
  add_probs-Holds k [] ps out h = h
  add_probs-Holds k (p ∷ probs) ps out h =
      add_probs-Holds k probs (p ∷ ps) (add_prob n k p out) (add_prob-Holds k p ps out h)

  start-Holds : (k : ℕ) → Holds k [] (n.one ∷ replicate k n.zero)
  start-Holds k = (ap suc (length-replicate k n.zero), λ i l. cell i)
    where
      cell : (i : ℕ) → get_or (n.one ∷ replicate k n.zero) i n.zero ≡ exactly [] i
      cell zero = refl
      cell (suc i) = get_or-replicate k i n.zero

  -- The array that `CalculateProb` returns has a cell for each number of events up to all of
  -- them, and holds there the probability that exactly so many happen, by the recursion on the
  -- events, the last one first. No law of arithmetic is used, so that this holds of floats too.
  pub calculate_prob-exactly :
      (probs : List A)
      → (length (calculate_prob n probs) ≡ suc (length probs))
        × ((i : ℕ)
            → i ≤ length probs
            → get_or (calculate_prob n probs) i n.zero ≡ exactly (reverse probs) i)
  unfolding calculate_prob
  calculate_prob-exactly probs =
      add_probs-Holds (length probs) probs [] _ (start-Holds (length probs))
