-- ===== src/Experts/Predictor/Ranking.antt =====
-- The prediction after any sequence of updates.
use mathlib.Core.List.{reverse, Mem, mem-map, map-map}
use mathlib.Core.Logic.{∥∥₁_elim}
use mathlib.Core.List.Perm
use native.Mathlib.Nat.{mod-lt}
use block_lut.Prelude.{
  ℕ, zero, suc, ◌+◌, ◌*◌, ◌%◌, ◌<◌, ◌≡◌, refl, sym, ap, ◌∙◌, false, List, [], ◌∷◌, ◌++◌, map,
  length, take, min, get_or, arith, ◌==◌, get_elem?-get_or, Bool-cases, inl, inr,
}
use block_lut.Outcome.{ok}
use block_lut.Dict
use block_lut.Counter
use block_lut.Counter.{Counter, count, nlargest}
use block_lut.Counter.Laws.{count-update, mem_of_count}
use block_lut.Counter.Largest.{IsFalling, nlargest_lem}
use block_lut.Experts.Predictor.{
  ExpertPredictor, Update, init, recent_activated, scores, predict_next_layer,
}
use block_lut.Experts.Predictor.Spec.{of_layer, total, activations, recent_activations}
use block_lut.Experts.Predictor.Follows.{
  IsFollowing, InRange, run, run-IsFollowing, init-IsFollowing,
}

count-recent_activated :
    (e left layer : ℕ) (recent : Counter) (updates : List Update)
    → count e (recent_activated left layer recent updates)
      ≡ total e (take left (of_layer layer updates)) + count e recent
unfolding recent_activated
count-recent_activated e zero layer recent updates = omega arith
count-recent_activated e (suc left) layer recent [] = omega arith
count-recent_activated e (suc left) layer recent ((l, experts) ∷ updates) =
    elim (Bool-cases (l == layer)) [
      | inl same ↦ rw same (
          omega (
            arith,
            count-recent_activated e left layer (Counter.update experts recent) updates,
            count-update e experts recent,
          ))
      | inr other ↦ rw other (count-recent_activated e (suc left) layer recent updates)
    ]

-- What is known of the list that the prediction is cut from: every score, and the experts that
-- stand in it.
pub record IsRanking (window layer : ℕ) (updates : List Update) (ranked : List (ℕ × ℕ))
    : Type 0 where
  pub falling : IsFalling (λ (item : ℕ × ℕ). item.1) ranked
  pub scored :
      (e s : ℕ)
      → Mem (e, s) ranked
      → s ≡ 4 * activations layer e updates + recent_activations window layer e updates
  pub complete :
      (e : ℕ) → 0 < activations layer e updates → Mem e (map (λ (item : ℕ × ℕ). item.0) ranked)

scores-keys :
    (table recent : Counter)
    → map (λ (item : ℕ × ℕ). item.0) (scores table recent) ≡ map (λ (item : ℕ × ℕ). item.0) table
unfolding scores
scores-keys table recent = map-map _ _ table

scores-values :
    (table recent : Counter) (e s : ℕ)
    → Mem (e, s) (scores table recent)
    → s ≡ 4 * count e table + count e recent
unfolding scores
scores-values table recent e s m =
    let Found : Type 0 =
      (item : ℕ × ℕ) × Mem item table
      × ((item.0, 4 * count item.0 table + count item.0 recent) ≡ (e, s)) in
    ∥∥₁_elim {P = s ≡ 4 * count e table + count e recent} (mem-map.0 m) (hlevel) (λ (found : Found).
      let same = found.2 in
      sym (ap (λ (i : ℕ × ℕ). i.1) same)
      ∙ ap (λ k. 4 * count k table + count k recent) (ap (λ (i : ℕ × ℕ). i.0) same))

empty : (e : ℕ) → count e [] ≡ 0
unfolding count Dict.get
empty e = refl

pub predicted :
    (n topk w current : ℕ) (updates : List Update) (p : ExpertPredictor)
    → 0 < n
    → IsFollowing n topk w updates p
    → (picked rest : List (ℕ × ℕ)) × (predict_next_layer current p
        ≡ ok ((current + 1) % n, map (λ (item : ℕ × ℕ). item.0) picked))
      × IsRanking w ((current + 1) % n) updates (picked ++ rest)
      × (length picked ≡ min topk (length (picked ++ rest)))
unfolding predict_next_layer
predicted n topk w current updates p h f =
    let nonzero : (n == 0) ≡ false = ground arith in
    let next = (current + 1) % n in
    let table = get_or p.freq_tables next [] in
    let recent = recent_activated 5 next [] (reverse p.history) in
    let (rest, perm, falling, size) =
      nlargest_lem (λ (item : ℕ × ℕ). item.1) topk (scores table recent) in
    (
      nlargest (λ (item : ℕ × ℕ). item.1) topk (scores table recent),
      rest,
      rw
          (
            predict_next_layer,
            f.layers,
            nonzero,
            get_elem?-get_or p.freq_tables next []
                (omega (arith, f.tables, mod-lt (current + 1) h)),
            f.layers,
            f.asked,
          )
          refl,
      record {
        falling = falling;
        scored = λ e s m.
            scores-values table recent e s ((Perm.mem_iff perm).0 m)
            ∙ omega (
              arith,
              f.counted next e,
              count-recent_activated e 5 next [] (reverse p.history),
              ap (λ us. total e (take 5 (of_layer next (reverse us)))) f.remembered,
              empty e,
            );
        complete = λ e active.
            (Perm.mem_iff (Perm.map _ perm)).1
              (rw scores-keys (mem_of_count e table (omega (arith, f.counted next e))));
      },
      size,
    )

-- After any updates of a model with `n` sparse layers, all of its layers, the prediction for the
-- layer after `current` (after the last one, the first) succeeds. It is the head of a list of
-- experts by falling score, cut to the number asked for. A score is four times the activations of
-- the expert in that layer plus its activations in the last five updates of the layer that the
-- window still holds; every expert that the layer ever activated stands in the list.
pub predict_next_layer-run :
    (n topk window current : ℕ) (updates : List Update)
    → 0 < n
    → InRange n updates
    → (p : ExpertPredictor) × (run updates (init n topk window) ≡ ok p)
      × (picked rest : List (ℕ × ℕ)) × (predict_next_layer current p
          ≡ ok ((current + 1) % n, map (λ (item : ℕ × ℕ). item.0) picked))
      × IsRanking window ((current + 1) % n) updates (picked ++ rest)
      × (length picked ≡ min topk (length (picked ++ rest)))
predict_next_layer-run n topk w current updates h r =
    let (p, ran, f) =
      run-IsFollowing n topk w updates [] (init n topk w) r (init-IsFollowing n topk w) in
    let (picked, rest, made, ranking, size) = predicted n topk w current updates p h f in
    (p, ran, picked, rest, made, ranking, size)
