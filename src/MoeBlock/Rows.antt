-- ===== src/MoeBlock/Rows.antt =====
-- The rows of the mask and of the weights of a block, one token at a time.
use block_lut.Prelude.{
  ℕ, zero, suc, ◌<◌, ◌≤◌, ◌≡◌, refl, sym, ap, ◌∙◌, true, false, inl, inr, lt_or_le, List, [], ◌∷◌,
  map, length, get_or, range', ltb, lt→ltb, All, arith, get_or-map,
}
use block_lut.Counter.Laws.{occurrences}
use block_lut.Planning.Scalars.{Arithmetic}
use block_lut.Experts.Executor.{RouterMask}
use block_lut.Quantizer.Codes.Agree.{length-range'}
use block_lut.Quantizer.Codes.Decoded.{get_or-range'}
use block_lut.MoeBlock.{all_below, mask_row, token_indices, weight_of, weight_row, weight_rows}
use block_lut.MoeBlock.Masks.{length-mask_row, mask_row-occurrences}

pub get_or-beyond : {X : Type 0} (xs : List X) (i : ℕ) (d : X) → length xs ≤ i → get_or xs i d ≡ d
get_or-beyond [] i d h = refl
get_or-beyond (x ∷ xs) zero d h = absurd (omega arith)
get_or-beyond (x ∷ xs) (suc i) d h = get_or-beyond xs i d (omega arith)

pub occurrences-within :
    (b e : ℕ) (ids : List ℕ) → All (λ i. i < b) ids → b ≤ e → occurrences e ids ≡ 0
occurrences-within b e [] h l = refl
occurrences-within b e (i ∷ ids) (h, hs) l = ground (arith, occurrences-within b e ids hs l)

pub All-occurrences :
    (ids : List ℕ) (P : ℕ → Type 0) → ((i : ℕ) → 0 < occurrences i ids → P i) → All P ids
All-occurrences [] P h = tt
All-occurrences (i ∷ ids) P h =
    (h i (ground arith), All-occurrences ids P (λ j l. h j (ground arith)))

pub All-mask_row :
    (num_experts k : ℕ) (rows : List (List ℕ))
    → All (λ row. length row ≡ num_experts) (map (mask_row num_experts k) rows)
All-mask_row num_experts k [] = tt
All-mask_row num_experts k (ids ∷ rows) =
    (length-mask_row num_experts k ids, All-mask_row num_experts k rows)

pub all_below-within : (b : ℕ) (ids : List ℕ) → All (λ i. i < b) ids → all_below b ids ≡ true
unfolding all_below
all_below-within b [] h = refl
all_below-within b (i ∷ ids) (h, hs) = rw (lt→ltb i b h, all_below-within b ids hs)

-- The weights of a token, and their number.
module _ {A : Type 0} (n : Arithmetic A) (num_experts : ℕ) where
  pub length-weight_rows :
      (topk_idx : List (List ℕ)) (topk_weight : List (List A))
      → length topk_weight ≡ length topk_idx
      → length (weight_rows n num_experts topk_idx topk_weight) ≡ length topk_idx
  unfolding weight_rows
  length-weight_rows [] topk_weight h = refl
  length-weight_rows (ids ∷ rest) [] h = absurd (omega arith)
  length-weight_rows (ids ∷ rest) (ws ∷ topk_weight) h =
      ap suc (length-weight_rows rest topk_weight (omega arith))

  pub weight_rows-get_or :
      (topk_idx : List (List ℕ)) (topk_weight : List (List A)) (t : ℕ)
      → length topk_weight ≡ length topk_idx
      → t < length topk_idx
      → get_or (weight_rows n num_experts topk_idx topk_weight) t []
        ≡ weight_row n num_experts (get_or topk_idx t []) (get_or topk_weight t [])
  unfolding weight_rows
  weight_rows-get_or [] topk_weight t h l = absurd (omega arith)
  weight_rows-get_or (ids ∷ rest) [] t h l = absurd (omega arith)
  weight_rows-get_or (ids ∷ rest) (ws ∷ topk_weight) zero h l = refl
  weight_rows-get_or (ids ∷ rest) (ws ∷ topk_weight) (suc t) h l =
      weight_rows-get_or rest topk_weight t (omega arith) (omega arith)

  pub weight_row-get_or :
      (ids : List ℕ) (weights : List A) (e : ℕ)
      → e < num_experts
      → get_or (weight_row n num_experts ids weights) e n.zero ≡ weight_of n e ids weights
  unfolding weight_row
  weight_row-get_or ids weights e h =
      get_or-map (λ expert. weight_of n expert ids weights) (range' 0 num_experts) e 0 n.zero
        (omega (arith, length-range' 0 num_experts))
      ∙ ap (λ expert. weight_of n expert ids weights)
          (omega (arith, get_or-range' 0 num_experts e h))

-- A token is held for an expert exactly if it has chosen it, also past the last expert.
pub flag-occurrences :
    (num_experts k : ℕ) (mask : RouterMask) (ids : List ℕ) (t e : ℕ)
    → t < length mask
    → get_or mask t [] ≡ mask_row num_experts k ids
    → length ids ≡ k
    → 0 < k
    → All (λ i. i < num_experts) ids
    → get_or (token_indices mask e) t false ≡ ltb 0 (occurrences e ids)
unfolding token_indices
flag-occurrences num_experts k mask ids t e l own long some_slot within =
    get_or-map (λ (row : List ℕ). ltb 0 (get_or row e 0)) mask t [] false l
    ∙ ap (λ row. ltb 0 (get_or row e 0)) own
    ∙ elim (lt_or_le e num_experts) [
      | inl below ↦ mask_row-occurrences num_experts k e ids long some_slot below
      | inr beyond ↦ ap (ltb 0) (
          get_or-beyond (mask_row num_experts k ids) e 0
            (omega (arith, length-mask_row num_experts k ids))
          ∙ sym (occurrences-within num_experts e ids within beyond))
    ]
