-- ===== src/MoeBlock/Masks.antt =====
-- The router's mask holds a token for an expert exactly if the token has chosen the expert, and
-- so every chosen expert is dispatched.
use block_lut.Prelude.{
  ℕ, zero, suc, ◌+◌, ◌<◌, ◌≡◌, refl, ap, ◌∙◌, subst, List, [], ◌∷◌, length, get_or, range', ltb,
  ◌==◌, if◌then◌else◌, arith, length-map, get_or-map,
}
use block_lut.Counter.Laws.{occurrences}
use block_lut.Experts.Executor.{RouterMask, column}
use block_lut.Quantizer.Codes.Agree.{length-range'}
use block_lut.Quantizer.Codes.Decoded.{get_or-range'}
use block_lut.MoeBlock.{one_hot, logical_or, or_slots, mask_row}

-- The cells from one on, joined to a value.
abbrev or_from : List ℕ → ℕ → ℕ → ℕ → ℕ
or_from cells i zero c = c
or_from cells i (suc left) c = or_from cells (suc i) left (logical_or c (get_or cells i 0))

or_slots-or_from :
    (i left c : ℕ) (cells : List ℕ)
    → get_or (or_slots (range' (suc i) left) (c ∷ cells)) 0 0 ≡ or_from cells i left c
unfolding or_slots
or_slots-or_from i zero c cells = refl
or_slots-or_from i (suc left) c cells =
    or_slots-or_from (suc i) left (logical_or c (get_or cells i 0)) cells

or_from_shift :
    (x : ℕ) (cells : List ℕ) (i left c : ℕ)
    → or_from (x ∷ cells) (suc i) left c ≡ or_from cells i left c
or_from_shift x cells i zero c = refl
or_from_shift x cells i (suc left) c =
    or_from_shift x cells (suc i) left (logical_or c (get_or cells i 0))

-- Of the one-hot cells of an expert, one is set where the expert occurs.
or_from-occurrences :
    (e : ℕ) (ids : List ℕ) (c : ℕ)
    → ltb 0 (or_from (one_hot e ids) 0 (length ids) c) ≡ ltb 0 (c + occurrences e ids)
unfolding one_hot logical_or
or_from-occurrences e [] c = ground arith
or_from-occurrences e (i ∷ ids) c =
    let cell : ℕ = if i == e then 1 else 0 in
    ap (ltb 0) (or_from_shift cell (one_hot e ids) 0 (length ids) (logical_or c cell))
    ∙ or_from-occurrences e ids (logical_or c cell)
    ∙ ground arith

or_slots-occurrences :
    (e i : ℕ) (ids : List ℕ)
    → ltb 0 (get_or (or_slots (range' 0 (suc (length ids))) (one_hot e (i ∷ ids))) 0 0)
      ≡ ltb 0 (occurrences e (i ∷ ids))
unfolding or_slots one_hot logical_or
or_slots-occurrences e i ids =
    let cell : ℕ = if i == e then 1 else 0 in
    ap (ltb 0) (or_slots-or_from 0 (length ids) (logical_or cell cell) (one_hot e ids))
    ∙ or_from-occurrences e ids (logical_or cell cell)
    ∙ ground arith

pub length-mask_row :
    (num_experts k : ℕ) (ids : List ℕ) → length (mask_row num_experts k ids) ≡ num_experts
unfolding mask_row
length-mask_row num_experts k ids =
    length-map _ (range' 0 num_experts) ∙ length-range' 0 num_experts

-- With as many choices as slots, at least one, the mask holds the token exactly for the experts
-- of its choices.
pub mask_row-occurrences :
    (num_experts k e : ℕ) (ids : List ℕ)
    → length ids ≡ k
    → 0 < k
    → e < num_experts
    → ltb 0 (get_or (mask_row num_experts k ids) e 0) ≡ ltb 0 (occurrences e ids)
unfolding mask_row
mask_row-occurrences num_experts k e [] long some_slot h = absurd (omega arith)
mask_row-occurrences num_experts k e (i ∷ ids) long some_slot h =
    let cell : ℕ → ℕ = λ expert. get_or (or_slots (range' 0 k) (one_hot expert (i ∷ ids))) 0 0 in
    ap (ltb 0) (
      get_or-map cell (range' 0 num_experts) e 0 0 (omega (arith, length-range' 0 num_experts))
      ∙ ap cell (omega (arith, get_or-range' 0 num_experts e h)))
    ∙ subst
        (λ m.
          ltb 0 (get_or (or_slots (range' 0 m) (one_hot e (i ∷ ids))) 0 0)
          ≡ ltb 0 (occurrences e (i ∷ ids)))
        long (or_slots-occurrences e i ids)

-- A token that an expert holds is counted in the expert's column.
pub column-lt :
    (mask : RouterMask) (t e : ℕ)
    → t < length mask
    → 0 < get_or (get_or mask t []) e 0
    → 0 < column mask e
column-lt [] t e h c = absurd (omega arith)
column-lt (row ∷ mask) zero e h c = omega arith
column-lt (row ∷ mask) (suc t) e h c = omega (arith, column-lt mask t e (omega arith) c)
