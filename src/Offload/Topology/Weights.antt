-- ===== src/Offload/Topology/Weights.antt =====
-- How often an id stands in the groups, and how one more tensor changes that.
use block_lut.Prelude.{
  ℕ, ◌+◌, ◌≡◌, refl, none, some, String, List, [], ◌∷◌, ◌++◌, arith, ◌==◌, if◌then◌else◌,
  Option-cases, inl, inr, string_discrete,
}
use block_lut.Outcome.{Result, ok, raise, ◌>>=◌}
use block_lut.Dict
use block_lut.Dict.{Dict}
use block_lut.Counter.Laws.{occurrences}
use block_lut.Offload.Topology.{
  Group, experts, dense, Groups, add_to_experts, add_to_dense, add_expert, add_dense,
}

-- If there is a result, it has the weight `n`.
unfoldable pub Weighs : {A : Type 0} → (A → ℕ) → ℕ → Result A → Type 0
Weighs w n (raise e) = Unit
Weighs w n (ok a) = w a ≡ n

pub Weighs-bind :
    {A B : Type 0} (w : A → ℕ) (w' : B → ℕ) (n n' : ℕ) (r : Result A) (f : A → Result B)
    → Weighs w n r
    → ((a : A) → w a ≡ n → Weighs w' n' (f a))
    → Weighs w' n' (r >>= f)
unfolding Weighs
Weighs-bind w w' n n' (raise e) f h k = tt
Weighs-bind w w' n n' (ok a) f h k = k a h

-- The weight of the values of a dictionary.
abbrev pub weight : {K V : Type 0} → (V → ℕ) → Dict K V → ℕ
weight w [] = 0
weight w ((k, v) ∷ d) = w v + weight w d

weight-put_new :
    {K V : Type 0} (dec : Discrete K) (w : V → ℕ) (k : K) (v : V) (d : Dict K V)
    → Dict.get dec k d ≡ none
    → weight w (Dict.put dec k v d) ≡ w v + weight w d
unfolding Dict.get Dict.put
weight-put_new dec w k v [] h = refl
weight-put_new dec w k v ((j, u) ∷ d) h = ground (arith, weight-put_new dec w k v d)

weight-put_old :
    {K V : Type 0} (dec : Discrete K) (w : V → ℕ) (k : K) (u v : V) (d : Dict K V)
    → Dict.get dec k d ≡ some u
    → w u + weight w (Dict.put dec k v d) ≡ w v + weight w d
unfolding Dict.get Dict.put
weight-put_old dec w k u v [] h = ground arith
weight-put_old dec w k u v ((j, x) ∷ d) h = ground (arith, weight-put_old dec w k u v d)

pub occurrences-append :
    (e : ℕ) (us vs : List ℕ) → occurrences e (us ++ vs) ≡ occurrences e us + occurrences e vs
occurrences-append e [] vs = omega arith
occurrences-append e (u ∷ us) vs = omega (arith, occurrences-append e us vs)

module _ (e : ℕ) where
  -- How often an id stands in a group.
  abbrev pub in_group : Group → ℕ
  in_group (experts d) = weight (occurrences e) d
  in_group (dense ids) = occurrences e ids

  abbrev pub hit : ℕ → ℕ
  hit id = if id == e then 1 else 0

  Weighs-add_to_experts :
      (name : String) (id : ℕ) (g : Group)
      → Weighs in_group (hit id + in_group g) (add_to_experts name id g)
  unfolding Weighs add_to_experts
  Weighs-add_to_experts name id (dense ids) = tt
  Weighs-add_to_experts name id (experts d) =
      elim (Option-cases (Dict.get string_discrete name d)) [
        | inl h ↦
            rw (add_to_experts, h)
              (omega (arith, weight-put_new string_discrete (occurrences e) name (id ∷ []) d h))
        | inr (ids, h) ↦
            rw (add_to_experts, h)
              (omega (
                arith,
                weight-put_old string_discrete (occurrences e) name ids (ids ++ (id ∷ [])) d h,
                occurrences-append e ids (id ∷ []),
              ))
      ]

  Weighs-add_to_dense :
      (id : ℕ) (g : Group) → Weighs in_group (hit id + in_group g) (add_to_dense id g)
  unfolding Weighs add_to_dense
  Weighs-add_to_dense id (dense ids) = omega (arith, occurrences-append e ids (id ∷ []))
  Weighs-add_to_dense id (experts d) = tt

  -- A changed group takes the place of the old one.
  Weighs-put :
      (stored : String) (id : ℕ) (g : Group) (groups : Groups) (r : Result Group)
      → Dict.get string_discrete stored groups ≡ some g
      → Weighs in_group (hit id + in_group g) r
      → Weighs
          (weight in_group)
          (hit id + weight in_group groups)
          (r >>= λ more. ok (Dict.put string_discrete stored more groups))
  unfolding Weighs
  Weighs-put stored id g groups r h k =
      Weighs-bind in_group (weight in_group) (hit id + in_group g) (hit id + weight in_group groups)
        r _ k
        (λ more same.
          omega (arith, same, weight-put_old string_discrete in_group stored g more groups h))

  pub Weighs-add_expert :
      (stored name : String) (id : ℕ) (groups : Groups)
      → Weighs
          (weight in_group)
          (hit id + weight in_group groups)
          (add_expert stored name id groups)
  unfolding Weighs add_expert
  Weighs-add_expert stored name id groups =
      elim (Option-cases (Dict.get string_discrete stored groups)) [
        | inl h ↦
            rw (add_expert, h)
              (omega (
                arith,
                weight-put_new string_discrete in_group stored (experts ((name, id ∷ []) ∷ []))
                    groups h,
              ))
        | inr (g, h) ↦
            rw (add_expert, h)
              (Weighs-put stored id g groups (add_to_experts name id g) h
                (Weighs-add_to_experts name id g))
      ]

  pub Weighs-add_dense :
      (stored : String) (id : ℕ) (groups : Groups)
      → Weighs (weight in_group) (hit id + weight in_group groups) (add_dense stored id groups)
  unfolding Weighs add_dense
  Weighs-add_dense stored id groups = elim (Option-cases (Dict.get string_discrete stored groups)) [
    | inl h ↦
        rw (add_dense, h)
          (omega (arith, weight-put_new string_discrete in_group stored (dense (id ∷ [])) groups h))
    | inr (g, h) ↦
        rw (add_dense, h)
          (Weighs-put stored id g groups (add_to_dense id g) h (Weighs-add_to_dense id g))
  ]
