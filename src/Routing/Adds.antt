-- ===== src/Routing/Adds.antt =====
-- The mixture by positions: the sum over the slots of a token, from the left.
use block_lut.Prelude.{ℕ, zero, suc, ◌≡◌, refl, ◌∙◌, List, [], ◌∷◌, length, get_or, arith}
use block_lut.Routing.{Space, mixture}

module _ {A V : Type 0} (s : Space A V) where
  -- To a row, the values from a position on are added, as many as there are left.
  abbrev pub adds : (ℕ → V) → ℕ → ℕ → V → V
  adds value k zero row = row
  adds value k (suc left) row = adds value (suc k) left (s.add row (value k))

  adds_shift :
      (value : ℕ → V) (k left : ℕ) (row : V)
      → adds value (suc k) left row ≡ adds (λ i. value (suc i)) k left row
  adds_shift value k zero row = refl
  adds_shift value k (suc left) row = adds_shift value (suc k) left (s.add row (value (suc k)))

  pub adds-mixture :
      (expert : ℕ → V) (ids : List ℕ) (weights : List A) (a : A) (row : V)
      → length weights ≡ length ids
      → adds (λ k. s.scale (get_or weights k a) (expert (get_or ids k 0))) 0 (length ids) row
        ≡ mixture s expert ids weights row
  unfolding mixture
  adds-mixture expert [] weights a row h = refl
  adds-mixture expert (i ∷ ids) [] a row h = absurd (omega arith)
  adds-mixture expert (i ∷ ids) (w ∷ weights) a row h =
      adds_shift (λ k. s.scale (get_or (w ∷ weights) k a) (expert (get_or (i ∷ ids) k 0))) 0
        (length ids) (s.add row (s.scale w (expert i)))
      ∙ adds-mixture expert ids weights a (s.add row (s.scale w (expert i))) (omega arith)
