-- ===== src/MoeBlock/Sums.antt =====
-- Sums over the experts and sums over the slots, with exact arithmetic on weights and rows.
use mathlib.Core.Path.{ap₂}
use block_lut.Prelude.{
  ℕ, ◌≡◌, ◌≢◌, refl, sym, ap, ◌∙◌, subst, inl, inr, same_or_other, true, false, List, [], ◌∷◌, All,
  ◌==◌, if◌then◌else◌, arith,
}
use block_lut.Counter.Laws.{occurrences}
use block_lut.Planning.Scalars.{Arithmetic, IsExact}
use block_lut.Routing.{Space, mixture}
use block_lut.MoeBlock.{weight_of}

-- Rows with exact numbers: a module over the weights.
pub record IsModule {A V : Type 0} (n : Arithmetic A) (s : Space A V) : Type 0 where
  pub add_assoc : (u v w : V) → s.add (s.add u v) w ≡ s.add u (s.add v w)
  pub add_comm : (u v : V) → s.add u v ≡ s.add v u
  pub zero_add : (v : V) → s.add s.zero v ≡ v
  pub scale_zero : (v : V) → s.scale n.zero v ≡ s.zero
  pub scale_add : (a b : A) (v : V) → s.scale (n.add a b) v ≡ s.add (s.scale a v) (s.scale b v)

module _ {A V : Type 0} (n : Arithmetic A) (s : Space A V) where
  -- The sum over a list of experts.
  abbrev pub sum_over : List ℕ → (ℕ → V) → V
  sum_over [] f = s.zero
  sum_over (e ∷ es) f = s.add (f e) (sum_over es f)

  -- The sum over the slots of a token.
  abbrev pub total : (ℕ → V) → List ℕ → List A → V
  total expert [] weights = s.zero
  total expert (i ∷ ids) [] = s.zero
  total expert (i ∷ ids) (w ∷ weights) = s.add (s.scale w (expert i)) (total expert ids weights)

  module _ (x : IsExact n) (l : IsModule n s) where
    pub add_zero : (v : V) → s.add v s.zero ≡ v
    add_zero v = l.add_comm v s.zero ∙ l.zero_add v

    exchange : (a b c d : V) → s.add (s.add a b) (s.add c d) ≡ s.add (s.add a c) (s.add b d)
    exchange a b c d =
        l.add_assoc a b (s.add c d)
        ∙ ap (s.add a)
            (sym (l.add_assoc b c d) ∙ ap (λ u. s.add u d) (l.add_comm b c) ∙ l.add_assoc c b d)
        ∙ sym (l.add_assoc a c (s.add b d))

    pub mixture-total :
        (expert : ℕ → V) (ids : List ℕ) (weights : List A) (row : V)
        → mixture s expert ids weights row ≡ s.add row (total expert ids weights)
    unfolding mixture
    mixture-total expert [] weights row = sym (add_zero row)
    mixture-total expert (i ∷ ids) [] row = sym (add_zero row)
    mixture-total expert (i ∷ ids) (w ∷ weights) row =
        mixture-total expert ids weights (s.add row (s.scale w (expert i)))
        ∙ l.add_assoc row (s.scale w (expert i)) (total expert ids weights)

    pub sum_over-cong :
        (order : List ℕ) (f g : ℕ → V) → ((e : ℕ) → f e ≡ g e) → sum_over order f ≡ sum_over order g
    sum_over-cong [] f g h = refl
    sum_over-cong (e ∷ es) f g h = ap₂ s.add (h e) (sum_over-cong es f g h)

    sum_over-zero : (order : List ℕ) → sum_over order (λ e. s.zero) ≡ s.zero
    sum_over-zero [] = refl
    sum_over-zero (e ∷ es) = l.zero_add _ ∙ sum_over-zero es

    sum_over-add :
        (order : List ℕ) (f g : ℕ → V)
        → sum_over order (λ e. s.add (f e) (g e)) ≡ s.add (sum_over order f) (sum_over order g)
    sum_over-add [] f g = sym (l.zero_add s.zero)
    sum_over-add (e ∷ es) f g =
        ap (s.add (s.add (f e) (g e))) (sum_over-add es f g) ∙ exchange _ _ _ _

    module _ (expert : ℕ → V) (i : ℕ) (w : A) where
      -- What a slot with the expert `i` and the weight `w` gives to an expert.
      abbrev slot : ℕ → V
      slot e = s.scale (n.mul w (if i == e then n.one else n.zero)) (expert e)

      slot_own : slot i ≡ s.scale w (expert i)
      slot_own =
          let same : (i == i) ≡ true = ground arith in
          ap (λ b. s.scale (n.mul w (if b then n.one else n.zero)) (expert i)) same
          ∙ ap (λ a. s.scale a (expert i)) (x.mul_comm w n.one ∙ x.one_mul w)

      slot_other : (e : ℕ) → i ≢ e → slot e ≡ s.zero
      slot_other e h =
          let differ : (i == e) ≡ false = ground arith in
          ap (λ b. s.scale (n.mul w (if b then n.one else n.zero)) (expert e)) differ
          ∙ ap (λ a. s.scale a (expert e)) (x.mul_comm w n.zero ∙ x.zero_mul w)
          ∙ l.scale_zero (expert e)

      sum_over-slot_absent :
          (order : List ℕ) → occurrences i order ≡ 0 → sum_over order slot ≡ s.zero
      sum_over-slot_absent [] h = refl
      sum_over-slot_absent (e ∷ es) h =
          ap₂ s.add (slot_other e (ground arith)) (sum_over-slot_absent es (ground arith))
          ∙ l.zero_add s.zero

      sum_over-slot :
          (order : List ℕ) → occurrences i order ≡ 1 → sum_over order slot ≡ s.scale w (expert i)
      sum_over-slot [] h = absurd (omega arith)
      sum_over-slot (e ∷ es) h = elim (same_or_other i e) [
        | inl same ↦
            ap₂ s.add (subst (λ k. slot k ≡ s.scale w (expert i)) same slot_own)
              (sum_over-slot_absent es (ground arith))
            ∙ add_zero _
        | inr other ↦
            ap₂ s.add (slot_other e other) (sum_over-slot es (ground arith)) ∙ l.zero_add _
      ]

    -- The sum over the experts, each by its weight, is the sum over the slots, if each expert of
    -- a slot is in the list once.
    pub sum_over-total :
        (expert : ℕ → V) (order ids : List ℕ) (weights : List A)
        → All (λ i. occurrences i order ≡ 1) ids
        → sum_over order (λ e. s.scale (weight_of n e ids weights) (expert e))
          ≡ total expert ids weights
    unfolding weight_of
    sum_over-total expert order [] weights h =
        sum_over-cong order _ (λ e. s.zero) (λ e. l.scale_zero (expert e)) ∙ sum_over-zero order
    sum_over-total expert order (i ∷ ids) [] h =
        sum_over-cong order _ (λ e. s.zero) (λ e. l.scale_zero (expert e)) ∙ sum_over-zero order
    sum_over-total expert order (i ∷ ids) (w ∷ weights) h =
        sum_over-cong order _
          (λ e. s.add (slot expert i w e) (s.scale (weight_of n e ids weights) (expert e)))
          (λ e. l.scale_add _ _ (expert e))
        ∙ sum_over-add order (slot expert i w) (λ e. s.scale (weight_of n e ids weights) (expert e))
        ∙ ap₂ s.add (sum_over-slot expert i w order h.0)
            (sum_over-total expert order ids weights h.1)

    -- An expert that no slot has chosen has no weight.
    pub weight_of-absent :
        (e : ℕ) (ids : List ℕ) (weights : List A)
        → occurrences e ids ≡ 0
        → weight_of n e ids weights ≡ n.zero
    unfolding weight_of
    weight_of-absent e [] weights h = refl
    weight_of-absent e (i ∷ ids) [] h = refl
    weight_of-absent e (i ∷ ids) (w ∷ weights) h =
        let differ : (i == e) ≡ false = ground arith in
        ap₂ n.add
          (ap (λ b. n.mul w (if b then n.one else n.zero)) differ
            ∙ x.mul_comm w n.zero
            ∙ x.zero_mul w)
          (weight_of-absent e ids weights (ground arith))
        ∙ x.zero_add n.zero
