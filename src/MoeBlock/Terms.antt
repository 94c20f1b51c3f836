-- ===== src/MoeBlock/Terms.antt =====
-- The sum over the dispatcher's answers, one token at a time.
use block_lut.Prelude.{
  ℕ, ◌<◌, ◌≡◌, sym, ap, ◌∙◌, Bool, true, false, inl, inr, lt_or_le, List, [], ◌∷◌, map, length,
  get_or, ltb, lt→ltb, All, if◌then◌else◌, arith, length-map, get_or-map,
}
use block_lut.Counter.Laws.{occurrences}
use block_lut.Planning.Scalars.{IsExact}
use block_lut.Experts.Executor.{RouterMask}
use block_lut.Routing.{select}
use block_lut.Routing.Masked.{length-add_at, add_at-get_or}
use block_lut.MoeBlock.{Block, mask_row, token_indices, weight_of, weight_row, combine}
use block_lut.MoeBlock.Sums.{IsModule, add_zero, sum_over, weight_of-absent}
use block_lut.MoeBlock.Rows.{occurrences-within, flag-occurrences, weight_row-get_or}

module _ {A V : Type 0} (b : Block A V) (x : IsExact b.arithmetic)
    (l : IsModule b.arithmetic b.space) (expert : ℕ → V → V) where
  module _ (hidden : List V) (mask : RouterMask) (weights : List (List A))
      (masked : length mask ≡ length hidden) (weighed : length weights ≡ length hidden) where
    -- What the answer of an expert adds to a token.
    abbrev pub term : ℕ → ℕ → V
    term t e =
        if get_or (token_indices mask e) t false
        then b.space.scale
            (get_or (map (λ row. get_or row e b.arithmetic.zero) weights) t b.arithmetic.zero)
            (expert e (get_or hidden t b.space.zero))
        else b.space.zero

    -- A term that may be left out, before others.
    add_term :
        (c : Bool) (v u rest : V)
        → b.space.add (if c then b.space.add v u else v) rest
          ≡ b.space.add v (b.space.add (if c then u else b.space.zero) rest)
    add_term true v u rest = l.add_assoc v u rest
    add_term false v u rest = ap (b.space.add v) (sym (l.zero_add rest))

    pub combine-get_or :
        (order : List ℕ) (output : List V) (t : ℕ)
        → length output ≡ length hidden
        → t < length hidden
        → get_or
            (combine b mask weights
              (map (λ e. (map (expert e) (select (token_indices mask e) hidden), e)) order)
              output)
            t
            b.space.zero
          ≡ b.space.add
              (get_or output t b.space.zero)
              (sum_over b.arithmetic b.space order (term t))
    unfolding combine token_indices
    combine-get_or [] output t long h = sym (add_zero b.arithmetic b.space x l _)
    combine-get_or (e ∷ order) output t long h =
        let chosen = token_indices mask e in
        let column_weights = map (λ row. get_or row e b.arithmetic.zero) weights in
        combine-get_or order _ t (length-add_at b.space chosen output _ ∙ long) h
        ∙ ap (λ v. b.space.add v (sum_over b.arithmetic b.space order (term t)))
            (add_at-get_or b.space (expert e) chosen column_weights hidden output t
              b.arithmetic.zero
              (length-map (λ (row : List ℕ). ltb 0 (get_or row e 0)) mask ∙ masked ∙ sym long)
              (length-map (λ (row : List A). get_or row e b.arithmetic.zero) weights
                ∙ weighed
                ∙ sym long)
              (sym long) (omega (arith, long)))
        ∙ add_term (get_or chosen t false) _ _ _

    -- What the answer of an expert adds to a token is the expert's output by its weight.
    pub term-weight_of :
        (ids : List ℕ) (ws : List A) (t e : ℕ)
        → t < length hidden
        → get_or mask t [] ≡ mask_row b.num_experts b.num_experts_per_tok ids
        → get_or weights t [] ≡ weight_row b.arithmetic b.num_experts ids ws
        → length ids ≡ b.num_experts_per_tok
        → 0 < b.num_experts_per_tok
        → All (λ i. i < b.num_experts) ids
        → term t e
          ≡ b.space.scale
              (weight_of b.arithmetic e ids ws)
              (expert e (get_or hidden t b.space.zero))
    term-weight_of ids ws t e h own weight long some_slot within =
        let n = b.arithmetic in
        let row = get_or hidden t b.space.zero in
        let flag : get_or (token_indices mask e) t false ≡ ltb 0 (occurrences e ids) =
          flag-occurrences b.num_experts b.num_experts_per_tok mask ids t e (omega (arith, masked))
            own long some_slot within in
        let cell = get_or (map (λ r. get_or r e n.zero) weights) t n.zero in
        ap (λ c. if c then b.space.scale cell (expert e row) else b.space.zero) flag
        ∙ elim (lt_or_le 0 (occurrences e ids)) [
          | inl chosen ↦
              let below : e < b.num_experts = elim (lt_or_le e b.num_experts) [
                | inl low ↦ low
                | inr beyond ↦
                    absurd
                      (omega (arith, chosen, occurrences-within b.num_experts e ids within beyond))
              ] in
              ap (λ c. if c then b.space.scale cell (expert e row) else b.space.zero)
                (lt→ltb 0 _ (omega arith))
              ∙ ap (λ a. b.space.scale a (expert e row))
                  (get_or-map (λ (r : List A). get_or r e n.zero) weights t [] n.zero
                      (omega (arith, weighed))
                    ∙ ap (λ r. get_or r e n.zero) weight
                    ∙ weight_row-get_or n b.num_experts ids ws e below)
          | inr not_chosen ↦
              let none_chosen : occurrences e ids ≡ 0 = omega (arith, not_chosen) in
              ap (λ o. if ltb 0 o then b.space.scale cell (expert e row) else b.space.zero)
                none_chosen
              ∙ sym (
                  ap (λ a. b.space.scale a (expert e row))
                    (weight_of-absent n b.space x l e ids ws none_chosen)
                  ∙ l.scale_zero (expert e row))
        ]
