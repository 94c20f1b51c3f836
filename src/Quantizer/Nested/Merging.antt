-- ===== src/Quantizer/Nested/Merging.antt =====
-- The greedy merge of `_greedy_merge`: its loop ends, and which pairs it merges.
use native.Mathlib.Nat.{div-eq_of_lt, mod-eq_of_lt}
use block_lut.Prelude.{
  lt_or_le, ℕ, zero, suc, ◌+◌, ◌-◌, ◌/◌, ◌%◌, ◌≤◌, ◌<◌, min, ◌≡◌, refl, ap, true, false, List, [],
  ◌∷◌, length, take, drop, get_or, set_at, ltb, All, arith, length-append, length-take, length-drop,
  length-set_at, inl, inr, lt→ltb,
}
use block_lut.Quantizer.Numbers.{Numbers, IsShaped, HasNan}
use block_lut.Quantizer.Nested.{
  eye, diff_row, diffs_from, remove_at, merge_pair, merge_round, merge_loop, greedy_merge,
}

length-remove_at :
    {A : Type 0} (j : ℕ) (c : List A) → j < length c → suc (length (remove_at j c)) ≡ length c
unfolding remove_at
length-remove_at j c h =
    omega (arith, length-append (take j c) (drop (j + 1) c), length-take j c, length-drop (j + 1) c)

module _ {A : Type 0} (n : Numbers A) where
  length-merge_round : (c : List A) → 0 < length c → suc (length (merge_round n c)) ≡ length c
  unfolding merge_round merge_pair
  length-merge_round c h =
      let closest = n.argmin (diffs_from n c 0 c) in
      let j = closest % length c in
      let merged = n.div (n.add (get_or c (closest / length c) n.zero) (get_or c j n.zero)) n.two in
      let kept = length-set_at c (closest / length c) merged in
      omega (
        arith,
        kept,
        length-remove_at j (set_at c (closest / length c) merged) (omega (arith, kept)),
      )

  merge_loop_stops :
      (fuel target_k : ℕ) (c : List A) → length c ≤ target_k → merge_loop n fuel target_k c ≡ c
  unfolding merge_loop
  merge_loop_stops zero k c l = refl
  merge_loop_stops (suc fuel) k c l =
      let stop : ltb k (length c) ≡ false = ground arith in rw (merge_loop, stop) refl

  merge_loop_goes_on :
      (fuel target_k : ℕ) (c : List A)
      → target_k < length c
      → merge_loop n (suc fuel) target_k c ≡ merge_loop n fuel target_k (merge_round n c)
  unfolding merge_loop
  merge_loop_goes_on fuel k c l =
      let more : ltb k (length c) ≡ true = lt→ltb k (length c) l in rw (merge_loop, more) refl

  length-merge_loop :
      (fuel target_k : ℕ) (c : List A)
      → length c ≤ fuel
      → length (merge_loop n fuel target_k c) ≡ min target_k (length c)
  unfolding merge_loop
  length-merge_loop zero target_k c h = omega arith
  length-merge_loop (suc fuel) target_k c h = elim (lt_or_le target_k (length c)) [
    | inl l ↦
        let shorter = length-merge_round c (omega arith) in
        rw (merge_loop_goes_on fuel target_k c l) (
          omega (
            arith,
            shorter,
            length-merge_loop fuel target_k (merge_round n c) (omega (arith, shorter)),
          ))
    | inr g ↦ rw (merge_loop_stops (suc fuel) target_k c g) (omega arith)
  ]

  -- The loop of `_greedy_merge` ends before its fuel, the number of centroids, is used up: each
  -- round merges one pair, and as many centroids are left as were asked for, or all of them if
  -- there are not more than that. The order of the sort does not matter, only that it keeps the
  -- length.
  pub length-greedy_merge :
      (centroids : List A) (target_k : ℕ)
      → IsShaped n
      → length (greedy_merge n centroids target_k) ≡ min target_k (length centroids)
  unfolding greedy_merge
  length-greedy_merge c target_k s = omega (
    arith,
    s.length-sort (merge_loop n (length c) target_k c),
    length-merge_loop (length c) target_k c (omega arith),
  )

-- A reference: `rounds` times the first two centroids become one.
pub merge_front : {A : Type 0} → (A → A → A) → ℕ → List A → List A
merge_front middle zero c = c
merge_front middle (suc rounds) (x ∷ y ∷ c) = merge_front middle rounds (middle x y ∷ c)
merge_front middle (suc rounds) c = c

module _ {A : Type 0} (n : Numbers A) (nan : A) (Finite : A → Type 0)
    (h : HasNan n nan Finite) where
  -- The mean of two centroids.
  abbrev middle : A → A → A
  middle x y = n.div (n.add x y) n.two

  argmin-diffs_from :
      (x y : A) (c : List A) → Finite x → n.argmin (diffs_from n (x ∷ y ∷ c) 0 (x ∷ y ∷ c)) ≡ 1
  unfolding diffs_from diff_row eye
  argmin-diffs_from x y c f =
      rw (h.zero_infinity, h.add_nan (n.abs (n.sub y x))) (h.first_nan x _ f)

  merge_round-front : (x y : A) (c : List A) → Finite x → merge_round n (x ∷ y ∷ c) ≡ middle x y ∷ c
  unfolding merge_round merge_pair remove_at
  merge_round-front x y c f =
      let quotient : 1 / suc (suc (length c)) ≡ 0 = div-eq_of_lt (omega arith) in
      let remainder : 1 % suc (suc (length c)) ≡ 1 = mod-eq_of_lt (omega arith) in
      rw (argmin-diffs_from x y c f, quotient, remainder) refl

  merge_loop-front :
      (fuel target_k rounds : ℕ) (c : List A)
      → length c ≤ fuel
      → 0 < target_k
      → All Finite c
      → length c - target_k ≡ rounds
      → merge_loop n fuel target_k c ≡ merge_front middle rounds c
  unfolding merge_loop merge_front
  merge_loop-front fuel k zero c l p f e = merge_loop_stops n fuel k c (omega arith)
  merge_loop-front zero k (suc rounds) c l p f e = absurd (omega arith)
  merge_loop-front (suc fuel) k (suc rounds) [] l p f e = absurd (omega arith)
  merge_loop-front (suc fuel) k (suc rounds) (x ∷ []) l p f e = absurd (omega arith)
  merge_loop-front (suc fuel) k (suc rounds) (x ∷ y ∷ c) l p (fx, (fy, f)) e =
      rw (merge_loop_goes_on n fuel k (x ∷ y ∷ c) (omega arith), merge_round-front x y c fx)
        (merge_loop-front fuel k rounds (middle x y ∷ c) (omega arith) p
          (h.mean-Finite x y fx fy, f) (omega arith))

  -- `torch.eye(k) * inf` is NaN off the diagonal, since 0 times infinity is, and `argmin` finds
  -- NaN first. So what is merged is not the closest pair: from centroids that are finite, the
  -- result is the sort of the list in which the first two centroids are replaced by their mean
  -- again and again, until `target_k` are left.
  pub greedy_merge-merge_front :
      (centroids : List A) (target_k : ℕ)
      → 0 < target_k
      → All Finite centroids
      → greedy_merge n centroids target_k
        ≡ n.sort (merge_front middle (length centroids - target_k) centroids)
  unfolding greedy_merge
  greedy_merge-merge_front c k p f =
      ap n.sort (merge_loop-front (length c) k (length c - k) c (omega arith) p f refl)
