-- ===== src/MoeBlock/Mixture.antt =====
-- What the forward pass of a block returns for a token, whatever the order in which the
-- dispatcher answers.
use mathlib.Core.Path.{ap₂}
use block_lut.Prelude.{
  ℕ, ◌<◌, ◌≡◌, refl, sym, ap, ◌∙◌, Bool, true, Option-cases, inl, inr, lt_or_le, Option, none, some,
  List, [], ◌∷◌, map, length, get_or, replicate, ltb, ltb→lt, lt→ltb, All, ==_iff, if◌then◌else◌,
  arith, length-map, get_or-map, length-replicate, get_or-replicate,
}
use block_lut.Outcome.{Returns}
use block_lut.Counter.Laws.{occurrences}
use block_lut.Planning.Scalars.{IsExact}
use block_lut.Experts.Predictor.{ExpertPredictor}
use block_lut.Experts.Executor.{Event, RouterMask, column, dispatch_local}
use block_lut.Experts.Executor.Dispatch.{Enqueued, enqueued, dispatch_local-expected_queue}
use block_lut.Routing.{mixture}
use block_lut.Routing.Masked.{length-add_at, add_rows-get_or}
use block_lut.MoeBlock.{
  Block, Answer, one_hot_check, mask_row, weight_row, weight_rows, combine, with_shared_experts,
  exec_expert, finished_outputs, forward,
}
use block_lut.MoeBlock.Masks.{mask_row-occurrences, column-lt}
use block_lut.MoeBlock.Sums.{IsModule, mixture-total, sum_over-cong, sum_over-total}
use block_lut.MoeBlock.Rows.{
  occurrences-within, All-occurrences, All-mask_row, all_below-within, length-weight_rows,
  weight_rows-get_or,
}
use block_lut.MoeBlock.Terms.{combine-get_or, term-weight_of}

-- What the gate documents of its choices.
pub record IsChoosing {A V : Type 0} (b : Block A V) : Type 0 where
  pub some_slot : 0 < b.num_experts_per_tok
  pub as_many : (x : V) → length ((b.choose x).0) ≡ b.num_experts_per_tok
  pub weighed : (x : V) → length ((b.choose x).1) ≡ b.num_experts_per_tok
  pub within : (x : V) → All (λ i. i < b.num_experts) ((b.choose x).0)

-- The order in which the experts finish: each enqueued one once.
abbrev pub FinishesOnce : ℕ → List Event → List ℕ → Type 0
FinishesOnce num_experts events order =
    (e : ℕ)
    → e < num_experts
    → occurrences e order ≡ occurrences e (map (λ (q : Enqueued). q.1) (enqueued events))

module _ {A V : Type 0} (b : Block A V) (x : IsExact b.arithmetic)
    (l : IsModule b.arithmetic b.space) (expert : ℕ → V → V) where
  -- The row of a token with what the shared experts add.
  abbrev pub with_shared : V → V → V
  with_shared row sum = elim b.shared_experts [
    | none ↦ sum
    | some shared ↦ b.space.add sum (shared row)
  ]

  with_shared_experts-get_or :
      (hidden output : List V) (t : ℕ)
      → length output ≡ length hidden
      → t < length hidden
      → get_or (with_shared_experts b hidden output) t b.space.zero
        ≡ with_shared (get_or hidden t b.space.zero) (get_or output t b.space.zero)
  unfolding with_shared_experts
  with_shared_experts-get_or hidden output t h k = elim (Option-cases b.shared_experts) [
    | inl alone ↦ rw alone
    | inr (shared, is) ↦ rw is (
        add_rows-get_or b.space output (map shared hidden) t
          (omega (arith, length-map shared hidden)) (omega arith)
        ∙ ap (b.space.add (get_or output t b.space.zero))
            (get_or-map shared hidden t b.space.zero b.space.zero k))
  ]

  one_hot_check-within :
      (c : IsChoosing b) (hidden : List V)
      → one_hot_check b.num_experts (map (λ row. (b.choose row).0) hidden) ≡ true
  unfolding one_hot_check
  one_hot_check-within c [] = refl
  one_hot_check-within c (row ∷ hidden) =
      rw (all_below-within b.num_experts ((b.choose row).0) (c.within row))
        (one_hot_check-within c hidden)

  length-combine :
      (mask : RouterMask) (weights : List (List A)) (results : List (Answer V)) (output : List V)
      → length (combine b mask weights results output) ≡ length output
  unfolding combine
  length-combine mask weights [] output = refl
  length-combine mask weights ((rows, e) ∷ results) output =
      length-combine mask weights results _ ∙ length-add_at b.space _ output _

  module _ (hidden : List V) where
    -- The mask that the block makes of its choices.
    abbrev pub block_mask : RouterMask
    block_mask =
        map (mask_row b.num_experts b.num_experts_per_tok) (map (λ row. (b.choose row).0) hidden)

    length-block_mask : length block_mask ≡ length hidden
    length-block_mask =
        length-map (mask_row b.num_experts b.num_experts_per_tok)
          (map (λ row. (b.choose row).0) hidden)
        ∙ length-map (λ row. (b.choose row).0) hidden

    block_mask-get_or :
        (t : ℕ)
        → t < length hidden
        → get_or block_mask t []
          ≡ mask_row b.num_experts b.num_experts_per_tok
              ((b.choose (get_or hidden t b.space.zero)).0)
    block_mask-get_or t h =
        get_or-map (mask_row b.num_experts b.num_experts_per_tok)
          (map (λ row. (b.choose row).0) hidden) t [] []
          (omega (arith, length-map (λ (row : V). (b.choose row).0) hidden))
        ∙ ap (mask_row b.num_experts b.num_experts_per_tok)
            (get_or-map (λ (row : V). (b.choose row).0) hidden t b.space.zero [] h)

    -- Each chosen expert is answered for once.
    chosen_once :
        (layer_id : ℕ) (predictor : Option ExpertPredictor) (order : List ℕ) (c : IsChoosing b)
        (once : FinishesOnce b.num_experts
          ((dispatch_local b.num_experts block_mask layer_id predictor).0)
          order)
        (t : ℕ)
        → t < length hidden
        → All (λ i. occurrences i order ≡ 1) ((b.choose (get_or hidden t b.space.zero)).0)
    chosen_once layer_id predictor order c once t h =
        let row = get_or hidden t b.space.zero in
        let ids = (b.choose row).0 in
        let (rest, calls, _, each, _) =
          dispatch_local-expected_queue b.num_experts layer_id block_mask predictor
            (All-mask_row b.num_experts b.num_experts_per_tok (map (λ r. (b.choose r).0) hidden)) in
        All-occurrences ids (λ i. occurrences i order ≡ 1)
          (λ i stands.
            let below : i < b.num_experts = elim (lt_or_le i b.num_experts) [
              | inl low ↦ low
              | inr beyond ↦ absurd (
                  omega
                    (arith, stands, occurrences-within b.num_experts i ids (c.within row) beyond))
            ] in
            let held : 0 < get_or (get_or block_mask t []) i 0 = ltb→lt 0 _ (
              ap (λ cells. ltb 0 (get_or cells i 0)) (block_mask-get_or t h)
              ∙ mask_row-occurrences b.num_experts b.num_experts_per_tok i ids (c.as_many row)
                  c.some_slot below
              ∙ lt→ltb 0 _ stands) in
            let counted : 0 < column block_mask i =
              column-lt block_mask t i (omega (arith, length-block_mask, h)) held in
            once i below
            ∙ ap (λ events. occurrences i (map (λ (q : Enqueued). q.1) (enqueued events))) calls
            ∙ each i below
            ∙ ap (λ (f : Bool). if f then 1 else 0) (lt→ltb 0 _ counted))

    -- With exact arithmetic, without the rounding of floats, a router that chooses experts of the
    -- layer for each row, a predictor that returns, and threads of the dispatcher that finish each
    -- enqueued expert once, in any order: for an input of three dimensions the forward pass
    -- returns, and the row of every token is, from zero, the sum over its choices of the router's
    -- weight times the output of the expert for this token, and then the output of the shared
    -- experts, if there are any.
    pub forward-mixture_block :
        (finish : List Event → List ℕ) (orig_shape : List ℕ) (layer_id : ℕ)
        (predictor : Option ExpertPredictor)
        → length orig_shape ≡ 3
        → IsChoosing b
        → Returns
            (λ left. Unit {0})
            ((dispatch_local b.num_experts block_mask layer_id predictor).1)
        → FinishesOnce b.num_experts
            ((dispatch_local b.num_experts block_mask layer_id predictor).0)
            (finish ((dispatch_local b.num_experts block_mask layer_id predictor).0))
        → Returns
            (λ r.
              (t : ℕ)
              → t < length hidden
              → let row = get_or hidden t b.space.zero in
                let (ids, weights) = b.choose row in
                get_or (r.0) t b.space.zero
                ≡ with_shared row (mixture b.space (λ i. expert i row) ids weights b.space.zero))
            (forward b expert finish orig_shape hidden layer_id predictor)
    unfolding forward finished_outputs exec_expert
    forward-mixture_block finish orig_shape layer_id predictor shaped c (left, runs, _) once =
        let n = b.arithmetic in
        let topk_idx = map (λ (row : V). (b.choose row).0) hidden in
        let topk_weight = map (λ (row : V). (b.choose row).1) hidden in
        let rows_idx : length topk_idx ≡ length hidden =
          length-map (λ (row : V). (b.choose row).0) hidden in
        let rows_weight : length topk_weight ≡ length hidden =
          length-map (λ (row : V). (b.choose row).1) hidden in
        let weights = weight_rows n b.num_experts topk_idx topk_weight in
        let rows_weights : length weights ≡ length hidden =
          length-weight_rows n b.num_experts topk_idx topk_weight (rows_weight ∙ sym rows_idx)
          ∙ rows_idx in
        let zeros = replicate (length hidden) b.space.zero in
        let size = length-replicate (length hidden) b.space.zero in
        let order = finish ((dispatch_local b.num_experts block_mask layer_id predictor).0) in
        let results = finished_outputs expert hidden block_mask order in
        rw
          (
            (==_iff (length orig_shape) 3).1 shaped,
            one_hot_check-within c hidden,
            lt→ltb 0 b.num_experts_per_tok c.some_slot,
            runs,
          )
          (
            _,
            refl,
            λ t h.
                let row = get_or hidden t b.space.zero in
                let ids = (b.choose row).0 in
                let ws = (b.choose row).1 in
                let own_weights : get_or weights t [] ≡ weight_row n b.num_experts ids ws =
                  weight_rows-get_or n b.num_experts topk_idx topk_weight t
                    (rows_weight ∙ sym rows_idx) (omega (arith, rows_idx, h))
                  ∙ ap₂ (weight_row n b.num_experts)
                      (get_or-map (λ (r : V). (b.choose r).0) hidden t b.space.zero [] h)
                      (get_or-map (λ (r : V). (b.choose r).1) hidden t b.space.zero [] h) in
                with_shared_experts-get_or hidden _ t
                  (length-combine block_mask weights results zeros ∙ size) h
                ∙ ap (with_shared row) (
                    combine-get_or b x l expert hidden block_mask weights length-block_mask
                      rows_weights order zeros t size h
                    ∙ ap₂ b.space.add (get_or-replicate (length hidden) t b.space.zero) (
                        sum_over-cong n b.space x l order _ _ (λ e.
                          term-weight_of b x l expert hidden block_mask weights length-block_mask
                            rows_weights ids ws t e h (block_mask-get_or t h) own_weights
                            (c.as_many row) c.some_slot (c.within row))
                        ∙ sum_over-total n b.space x l (λ i. expert i row) order ids ws
                            (chosen_once layer_id predictor order c once t h))
                    ∙ sym (mixture-total n b.space x l (λ i. expert i row) ids ws b.space.zero)),
          )
