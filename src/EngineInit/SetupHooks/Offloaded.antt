-- ===== src/EngineInit/SetupHooks/Offloaded.antt =====
-- Which addresses `setup_lut_moe_hooks` leaves in `offload_set`, by which the hooks go.
use block_lut.Prelude.{
  ℕ, ◌≡◌, refl, ap, ◌∙◌, sym, Bool, true, false, ◌||◌, ◌⊎◌, ◌&&◌, none, some, String,
  string_discrete, List, [], ◌∷◌, ◌==◌, Bool-cases, Option-cases, inl, inr, contains, map, subst,
  ==_iff,
}
use block_lut.Dict
use block_lut.Outcome.{ok, Returns}
use block_lut.Offload.{NameIdMap}
use block_lut.Offload.Topology.{NameParts, get_topology}
use block_lut.Hooks.{Module, mem}
use block_lut.EngineInit.SetupHooks.{
  Named, SetupCall, Addresses, add, exempt, register_params, register_buffers, setup_lut_moe_hooks,
}

-- Whether a tensor of the list whose name has an id lies at the address.
module _ (data_ptr : ℕ → ℕ) (name_id_map : NameIdMap) where
  pub has_id : String → Bool
  has_id name = elim (Dict.get string_discrete name name_id_map) [ none ↦ false | some _ ↦ true ]

  pub lies_at : ℕ → Named → Bool
  lies_at p [] = false
  lies_at p ((name, t) ∷ named) = (has_id name && data_ptr t == p) || lies_at p named

mem-add : (p q : ℕ) (ps : List ℕ) → mem p (add q ps) ≡ (q == p || mem p ps)
unfolding add mem
mem-add p q ps = elim (Bool-cases (mem q ps)) [
  | inl t ↦ elim (Bool-cases (q == p)) [
    | inl e ↦ rw (t, e) (subst (λ x. mem x ps ≡ true) ((==_iff q p).0 e) t)
    | inr f ↦ rw (t, f) refl
  ]
  | inr f ↦ elim (Bool-cases (q == p)) [ inl e ↦ rw (f, e) refl | inr g ↦ rw (f, g) refl ]
]

or-swap : (a b c : Bool) → ((a || b) || c) ≡ (b || (a || c))
or-swap true true c = refl
or-swap true false c = refl
or-swap false true c = refl
or-swap false false c = refl

or-false : (b : Bool) → (b || false) ≡ b
or-false true = refl
or-false false = refl

module _ (data_ptr : ℕ → ℕ) (name_id_map : NameIdMap) where
  exempt-offload_set :
      (name : String) (p : ℕ) (s : Addresses)
      → (exempt data_ptr name_id_map name p s).offload_set ≡ s.offload_set
  unfolding exempt
  exempt-offload_set name p s = elim (Bool-cases (contains name "shared")) [
    | inl t ↦ rw t refl
    | inr f ↦ rw f refl
  ]

  -- One tensor with an id, and what is known of the rest.
  added-mem :
      (p q : ℕ) (set after : List ℕ) (rest : Bool)
      → mem p after ≡ (mem p (add q set) || rest)
      → mem p after ≡ (mem p set || ((true && q == p) || rest))
  added-mem p q set after rest h =
      h ∙ ap (λ b. b || rest) (mem-add p q set) ∙ or-swap (q == p) (mem p set) rest

  -- What the loops do with the set at a tensor, by whether its name has an id.
  IsStep :
      (Named → Addresses → List SetupCall × Addresses)
      → (String → ℕ → Addresses → Addresses)
      → Type 0
  IsStep loop then_do =
      (name : String) (t : ℕ) (rest : Named) (s : Addresses)
      → ((has_id data_ptr name_id_map name ≡ false)
          × ((loop ((name, t) ∷ rest) s).1 ≡ (loop rest s).1))
        ⊎ ((has_id data_ptr name_id_map name ≡ true)
            × ((loop ((name, t) ∷ rest) s).1
                ≡ (loop rest (
                    then_do name (data_ptr t)
                      (record s { offload_set = add (data_ptr t) s.offload_set }))).1))

  register_params-IsStep :
      IsStep (register_params data_ptr name_id_map) (exempt data_ptr name_id_map)
  unfolding IsStep register_params has_id
  register_params-IsStep name t rest s =
      elim (Option-cases (Dict.get string_discrete name name_id_map)) [
        | inl gone ↦ inl (rw (has_id, gone) refl, rw (register_params, gone) refl)
        | inr (id, there) ↦ inr (rw (has_id, there) refl, rw (register_params, there) refl)
      ]

  register_buffers-IsStep : IsStep (register_buffers data_ptr name_id_map) (λ name p s. s)
  unfolding IsStep register_buffers has_id
  register_buffers-IsStep name t rest s =
      elim (Option-cases (Dict.get string_discrete name name_id_map)) [
        | inl gone ↦ inl (rw (has_id, gone) refl, rw (register_buffers, gone) refl)
        | inr (id, there) ↦ inr (rw (has_id, there) refl, rw (register_buffers, there) refl)
      ]

  loop-mem :
      (loop : Named → Addresses → List SetupCall × Addresses)
      (then_do : String → ℕ → Addresses → Addresses)
      → IsStep loop then_do
      → ((s : Addresses) → (loop [] s).1 ≡ s)
      → ((name : String) (q : ℕ) (s : Addresses) → (then_do name q s).offload_set ≡ s.offload_set)
      → (p : ℕ) (named : Named) (s : Addresses)
      → mem p ((loop named s).1).offload_set
        ≡ (mem p s.offload_set || lies_at data_ptr name_id_map p named)
  unfolding IsStep lies_at
  loop-mem loop then_do step end keeps p [] s =
      ap (λ (r : Addresses). mem p r.offload_set) (end s) ∙ sym (or-false (mem p s.offload_set))
  loop-mem loop then_do step end keeps p ((name, t) ∷ rest) s =
      let set_of : Addresses → Bool = λ r. mem p r.offload_set in
      let later = lies_at data_ptr name_id_map p rest in
      elim (step name t rest s) [
        | inl (gone, same) ↦
            ap set_of same ∙ rw gone (loop-mem loop then_do step end keeps p rest s)
        | inr (there, same) ↦
            let added : Addresses = record s { offload_set = add (data_ptr t) s.offload_set } in
            let next = then_do name (data_ptr t) added in
            ap set_of same
            ∙ rw there (
                added-mem p (data_ptr t) s.offload_set (((loop rest next).1).offload_set) later (
                  loop-mem loop then_do step end keeps p rest next
                  ∙ ap (λ set. mem p set || later) (keeps name (data_ptr t) added)))
      ]

  register_params-mem :
      (p : ℕ) (params : Named) (s : Addresses)
      → mem p ((register_params data_ptr name_id_map params s).1).offload_set
        ≡ (mem p s.offload_set || lies_at data_ptr name_id_map p params)
  unfolding register_params
  register_params-mem =
      loop-mem (register_params data_ptr name_id_map) (exempt data_ptr name_id_map)
        register_params-IsStep (λ s. refl) exempt-offload_set

  register_buffers-mem :
      (p : ℕ) (buffers : Named) (s : Addresses)
      → mem p ((register_buffers data_ptr name_id_map buffers s).1).offload_set
        ≡ (mem p s.offload_set || lies_at data_ptr name_id_map p buffers)
  unfolding register_buffers
  register_buffers-mem =
      loop-mem (register_buffers data_ptr name_id_map) (λ name p s. s) register_buffers-IsStep
        (λ s. refl) (λ name q s. refl)

  -- Where the topology can be read, the setup returns, and it leaves exactly these addresses in
  -- `offload_set`: those that were there before, and those of the parameters and buffers whose
  -- names have an id.
  pub setup_lut_moe_hooks-mem :
      (param_parts buffer_parts : NameParts) (first : String → String) (params buffers : Named)
      (m : Module) (count : ℕ) (s : Addresses) (topo : List (String × List (List ℕ)))
      → get_topology param_parts buffer_parts name_id_map
          (map (λ (q : String × ℕ). q.0) params)
          (map (λ (q : String × ℕ). q.0) buffers)
        ≡ ok topo
      → Returns
          (λ r.
            (p : ℕ)
            → mem p (r.1).offload_set ≡ (
                mem p s.offload_set
                || lies_at data_ptr name_id_map p params
                || lies_at data_ptr name_id_map p buffers))
          (setup_lut_moe_hooks param_parts buffer_parts first data_ptr name_id_map params buffers m
            count s)
  unfolding setup_lut_moe_hooks
  setup_lut_moe_hooks-mem param_parts buffer_parts first params buffers m count s topo h =
      let (calls, s1) = register_params data_ptr name_id_map params s in
      rw h (
        _,
        refl,
        λ p.
            register_buffers-mem p buffers s1
            ∙ ap (λ b. b || lies_at data_ptr name_id_map p buffers)
                (register_params-mem p params s),
      )
