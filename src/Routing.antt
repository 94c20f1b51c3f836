-- ===== src/Routing.antt =====
-- What the MoE layers of customized/ and of vllm_lut/ share: rows of hidden states that a mask
-- chooses, and the weighted sum over the chosen experts that they are to compute. A row is a
-- value of a type `V` that is not looked into.
pub mod Masked
pub mod Adds
use block_lut.Prelude.{ℕ, Bool, true, false, List, [], ◌∷◌}

-- `A` are the weights of the router.
pub record Space (A V : Type 0) : Type 0 where
  pub zero : V
  pub add : V → V → V
  pub scale : A → V → V

-- `mask.any()`
unfoldable pub any : List Bool → Bool
any [] = false
any (b ∷ mask) = elim b [ true ↦ true | false ↦ any mask ]

-- `xs[mask]`
unfoldable pub select : {X : Type 0} → List Bool → List X → List X
select [] xs = []
select (b ∷ mask) [] = []
select (true ∷ mask) (x ∷ xs) = x ∷ select mask xs
select (false ∷ mask) (x ∷ xs) = select mask xs

module _ {A V : Type 0} (s : Space A V) where
  -- `rows[mask] += values`
  unfoldable pub add_at : List Bool → List V → List V → List V
  add_at [] rows values = rows
  add_at (b ∷ mask) [] values = []
  add_at (false ∷ mask) (r ∷ rows) values = r ∷ add_at mask rows values
  add_at (true ∷ mask) (r ∷ rows) [] = r ∷ rows
  add_at (true ∷ mask) (r ∷ rows) (v ∷ values) = s.add r v ∷ add_at mask rows values

  -- `weights.unsqueeze(-1) * rows`
  unfoldable pub scale_rows : List A → List V → List V
  scale_rows [] rows = []
  scale_rows (w ∷ weights) [] = []
  scale_rows (w ∷ weights) (r ∷ rows) = s.scale w r ∷ scale_rows weights rows

  -- `rows + others`
  unfoldable pub add_rows : List V → List V → List V
  add_rows [] others = []
  add_rows (r ∷ rows) [] = []
  add_rows (r ∷ rows) (o ∷ others) = s.add r o ∷ add_rows rows others

  -- What an MoE layer is to compute for a token: to a row, the outputs of the chosen experts are
  -- added one after the other, each by its weight.
  unfoldable pub mixture : (ℕ → V) → List ℕ → List A → V → V
  mixture expert [] weights row = row
  mixture expert (i ∷ ids) [] row = row
  mixture expert (i ∷ ids) (w ∷ weights) row =
      mixture expert ids weights (s.add row (s.scale w (expert i)))
