-- ===== src/Experts/Predictor/Follows.antt =====
-- What the predictor holds after a sequence of updates.
use block_lut.Prelude.{
  ℕ, ◌+◌, ◌-◌, ◌<◌, ◌≡◌, refl, sym, ap, subst, ◌∙◌, List, [], ◌∷◌, ◌++◌, length, drop, All, get_or,
  set_at, arith, length-append, length-drop, drop_all, drop-append, drop-drop, append_assoc,
  append-nil, length-set_at, get_or-set_at_same, get_or-set_at_other, get_elem?-get_or,
  length-replicate, get_or-replicate,
}
use native.Mathlib.Decide.{ℕ_discrete}
use block_lut.Outcome.{Result, ok, ◌>>=◌}
use block_lut.Dict
use block_lut.Counter
use block_lut.Counter.{Counter, count}
use block_lut.Counter.Laws.{count-update}
use block_lut.Experts.Predictor.{ExpertPredictor, Update, init, update, append_within}
use block_lut.Experts.Predictor.Spec.{activations, latest}

-- A `deque` that is appended to item by item holds the latest items.
append_within-latest :
    {A : Type 0} (n : ℕ) (items : List A) (item : A)
    → append_within n (latest n items) item ≡ latest n (items ++ (item ∷ []))
unfolding append_within
append_within-latest n items item =
    let b = length items - n in
    let kept : drop b items ++ (item ∷ []) ≡ drop b (items ++ (item ∷ [])) =
      sym (drop-append b items (item ∷ []) (omega arith)) in
    ap (λ l. drop (length l - n) l) kept
    ∙ drop-drop b (length (drop b (items ++ (item ∷ []))) - n) (items ++ (item ∷ []))
    ∙ ap (λ k. drop k (items ++ (item ∷ [])))
        (omega (arith, length-drop b (items ++ (item ∷ [])), length-append items (item ∷ [])))

total-append :
    (e layer : ℕ) (us vs : List Update)
    → activations layer e (us ++ vs) ≡ activations layer e us + activations layer e vs
total-append e layer [] vs = omega arith
total-append e layer ((l, experts) ∷ us) vs = ground (arith, total-append e layer us vs)

-- The predictor holds the activations of each layer, and the window of the updates.
pub record IsFollowing (n topk w : ℕ) (done : List Update) (p : ExpertPredictor) : Type 0 where
  pub layers : p.num_sparse_layers ≡ n
  pub asked : p.prefetcher_topk ≡ topk
  pub window : p.window_size ≡ w
  pub tables : length p.freq_tables ≡ n
  pub counted : (layer e : ℕ) → count e (get_or p.freq_tables layer []) ≡ activations layer e done
  pub remembered : p.history ≡ latest w done

-- One more update counts in its own layer.
counted_more :
    (layer e : ℕ) (u : Update) (tables : List Counter) (done : List Update)
    → u.0 < length tables
    → ((l : ℕ) → count e (get_or tables l []) ≡ activations l e done)
    → count e (get_or (set_at tables u.0 (Counter.update u.1 (get_or tables u.0 []))) layer [])
      ≡ activations layer e (done ++ (u ∷ []))
counted_more layer e (l, experts) tables done h c = elim (ℕ_discrete l layer) [
  | yes p ↦
      subst
        (λ k.
          count e (get_or (set_at tables l (Counter.update experts (get_or tables l []))) k [])
          ≡ activations k e (done ++ ((l, experts) ∷ [])))
        p
        (ground (
          arith,
          get_or-set_at_same tables l (Counter.update experts (get_or tables l [])) [] h,
          count-update e experts (get_or tables l []),
          total-append e l done ((l, experts) ∷ []),
          c l,
        ))
  | no p ↦ ground (
    arith,
    get_or-set_at_other tables l layer (Counter.update experts (get_or tables l [])) [] p,
    total-append e layer done ((l, experts) ∷ []),
    c layer,
  )
]

-- The updates are of layers that the model has.
abbrev pub InRange : ℕ → List Update → Type 0
InRange n updates = All (λ (u : Update). u.0 < n) updates

unfoldable pub run : List Update → ExpertPredictor → Result ExpertPredictor
run [] p = ok p
run (u ∷ updates) p = update u p >>= run updates

pub init-IsFollowing : (n topk window : ℕ) → IsFollowing n topk window [] (init n topk window)
unfolding init count Dict.get
init-IsFollowing n topk w = record {
  layers = refl;
  asked = refl;
  window = refl;
  tables = length-replicate n _;
  counted = λ layer e. rw get_or-replicate refl;
  remembered = sym (drop_all (0 - w) [] (omega arith));
}

module _ (n topk w : ℕ) where
  pub update-IsFollowing :
      (u : Update) (done : List Update) (p : ExpertPredictor)
      → u.0 < n
      → IsFollowing n topk w done p
      → (p' : ExpertPredictor) × (update u p ≡ ok p') × IsFollowing n topk w (done ++ (u ∷ [])) p'
  unfolding update
  update-IsFollowing (layer, experts) done p h f =
      let table = get_or p.freq_tables layer [] in
      let there = get_elem?-get_or p.freq_tables layer [] (omega (arith, f.tables)) in
      (
        _,
        rw (update, there) refl,
        record {
          layers = f.layers;
          asked = f.asked;
          window = f.window;
          tables = length-set_at p.freq_tables layer _ ∙ f.tables;
          counted = λ l e.
              counted_more l e (layer, experts) p.freq_tables done (omega (arith, f.tables))
                (λ l'. f.counted l' e);
          remembered =
              ap (λ k. append_within k p.history (layer, experts)) f.window
              ∙ ap (λ items. append_within w items (layer, experts)) f.remembered
              ∙ append_within-latest w done (layer, experts);
        },
      )

  pub run-IsFollowing :
      (updates done : List Update) (p : ExpertPredictor)
      → InRange n updates
      → IsFollowing n topk w done p
      → (p' : ExpertPredictor) × (run updates p ≡ ok p') × IsFollowing n topk w (done ++ updates) p'
  unfolding run
  run-IsFollowing [] done p h f = (p, refl, rw append-nil f)
  run-IsFollowing (u ∷ updates) done p h f =
      let (p1, made, f1) = update-IsFollowing u done p h.0 f in
      let (p2, ran, f2) = run-IsFollowing updates (done ++ (u ∷ [])) p1 h.1 f1 in
      (
        p2,
        rw made ran,
        subst (λ us. IsFollowing n topk w us p2) (append_assoc done (u ∷ []) updates) f2,
      )
