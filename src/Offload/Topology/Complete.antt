-- ===== src/Offload/Topology/Complete.antt =====
-- No tensor is lost or repeated on the way into the topology.
use block_lut.Prelude.{
  ℕ, ◌+◌, ◌≡◌, refl, subst, none, some, String, List, [], ◌∷◌, ◌++◌, map, arith, Bool-cases,
  Option-cases, inl, inr, string_discrete,
}
use block_lut.Outcome.{Result, ok, raise}
use block_lut.Dict
use block_lut.Dict.{Dict}
use block_lut.Counter.Laws.{occurrences}
use block_lut.Offload.{NameIdMap, is_sparse}
use block_lut.Offload.Topology.{
  NameParts, Group, experts, dense, Groups, add_dense, place_expert, place, place_all, tensor_lists,
  get_topology,
}
use block_lut.Offload.Topology.Weights.{
  Weighs, Weighs-bind, weight, in_group, hit, Weighs-add_expert, Weighs-add_dense,
  occurrences-append,
}

abbrev pub concat {ℓ} : {A : Type ℓ} → List (List A) → List A
concat [] = []
concat (xs ∷ xss) = xs ++ concat xss

-- The ids in a topology.
abbrev pub listed : List (String × List (List ℕ)) → List ℕ
listed [] = []
listed ((stored_name, lists) ∷ topology) = concat lists ++ listed topology

-- The ids of the names that have one.
abbrev pub known : NameIdMap → List String → List ℕ
known name_id_map [] = []
known name_id_map (name ∷ names) = elim (Dict.get string_discrete name name_id_map) [
  | none ↦ known name_id_map names
  | some id ↦ id ∷ known name_id_map names
]

module _ (e : ℕ) where
  Weighs-any : {A : Type 0} (r : Result A) → Weighs (λ _. 0) 0 r
  unfolding Weighs
  Weighs-any (raise x) = tt
  Weighs-any (ok a) = refl

  Weighs-place :
      (parts : NameParts) (name : String) (id : ℕ) (groups : Groups)
      → Weighs
          (weight (in_group e))
          (hit e id + weight (in_group e) groups)
          (place parts name id groups)
  unfolding Weighs place place_expert
  Weighs-place parts name id groups = elim (Bool-cases (parts.has_number name)) [
    | inr h ↦ rw (place, h) (Weighs-add_dense e (parts.up_to_last_dot name) id groups)
    | inl h ↦ elim (Bool-cases (is_sparse name)) [
      | inl sparse ↦ elim (Option-cases (parts.up_to_experts name)) [
        | inl m ↦ rw (place, h, sparse, place_expert, m) tt
        | inr (stored, m) ↦ elim (Option-cases (parts.third_last name)) [
          | inl c ↦ rw (place, h, sparse, place_expert, m, c) tt
          | inr (expert, c) ↦
              rw (place, h, sparse, place_expert, m, c)
                (Weighs-add_expert e stored expert id groups)
        ]
      ]
      | inr sparse ↦
          rw (place, h, sparse)
            (Weighs-bind (λ _. 0) (weight (in_group e)) 0 (hit e id + weight (in_group e) groups)
              (parts.up_to_number name) (λ stored. add_dense stored id groups)
              (Weighs-any (parts.up_to_number name))
              (λ stored _. Weighs-add_dense e stored id groups))
    ]
  ]

  Weighs-place_all :
      (parts : NameParts) (name_id_map : NameIdMap) (names : List String) (groups : Groups)
      → Weighs
          (weight (in_group e))
          (occurrences e (known name_id_map names) + weight (in_group e) groups)
          (place_all parts name_id_map names groups)
  unfolding Weighs place_all
  Weighs-place_all parts name_id_map [] groups = omega arith
  Weighs-place_all parts name_id_map (name ∷ names) groups =
      elim (Option-cases (Dict.get string_discrete name name_id_map)) [
        | inl h ↦ rw (place_all, known, h) (Weighs-place_all parts name_id_map names groups)
        | inr (id, h) ↦
            rw (place_all, known, h)
              (Weighs-bind (weight (in_group e)) (weight (in_group e))
                (hit e id + weight (in_group e) groups) _ (place parts name id groups) _
                (Weighs-place parts name id groups)
                (λ more same.
                  subst
                    (λ n. Weighs (weight (in_group e)) n (place_all parts name_id_map names more))
                    (omega (arith, same)) (Weighs-place_all parts name_id_map names more)))
      ]

  occurrences-concat :
      (d : Dict String (List ℕ))
      → occurrences e (concat (map (λ (x : String × List ℕ). x.1) d)) ≡ weight (occurrences e) d
  occurrences-concat [] = refl
  occurrences-concat ((k, ids) ∷ d) = omega (
    arith,
    occurrences-append e ids (concat (map (λ (x : String × List ℕ). x.1) d)),
    occurrences-concat d,
  )

  occurrences-tensor_lists : (g : Group) → occurrences e (concat (tensor_lists g)) ≡ in_group e g
  unfolding tensor_lists
  occurrences-tensor_lists (experts d) = occurrences-concat d
  occurrences-tensor_lists (dense ids) = omega (arith, occurrences-append e ids [])

  occurrences-listed :
      (groups : Groups)
      → occurrences e (listed (map (λ (g : String × Group). (g.0, tensor_lists g.1)) groups))
        ≡ weight (in_group e) groups
  occurrences-listed [] = refl
  occurrences-listed ((k, g) ∷ groups) = omega (
    arith,
    occurrences-append e (concat (tensor_lists g))
        (listed (map (λ (g' : String × Group). (g'.0, tensor_lists g'.1)) groups)),
    occurrences-tensor_lists g,
    occurrences-listed groups,
  )

  Weighs-get_topology :
      (param_parts buffer_parts : NameParts) (name_id_map : NameIdMap)
      (params buffers : List String)
      → Weighs
          (λ topology. occurrences e (listed topology))
          (occurrences e (known name_id_map params) + occurrences e (known name_id_map buffers))
          (get_topology param_parts buffer_parts name_id_map params buffers)
  unfolding get_topology Weighs
  Weighs-get_topology param_parts buffer_parts name_id_map params buffers =
      Weighs-bind (weight (in_group e)) _ (occurrences e (known name_id_map params) + 0) _
        (place_all param_parts name_id_map params []) _
        (Weighs-place_all param_parts name_id_map params [])
        (λ groups same.
          Weighs-bind (weight (in_group e)) _
            (occurrences e (known name_id_map buffers) + weight (in_group e) groups) _
            (place_all buffer_parts name_id_map buffers groups) _
            (Weighs-place_all buffer_parts name_id_map buffers groups)
            (λ all total. omega (arith, same, total, occurrences-listed all)))

-- Where `get_topology` returns, every id stands in the topology exactly as often as among the
-- parameters and buffers of the model that have an id: nothing is lost, repeated or made up,
-- however the names are parsed.
pub get_topology-listed :
    (param_parts buffer_parts : NameParts) (name_id_map : NameIdMap) (params buffers : List String)
    (topology : List (String × List (List ℕ)))
    → get_topology param_parts buffer_parts name_id_map params buffers ≡ ok topology
    → (e : ℕ)
    → occurrences e (listed topology)
      ≡ occurrences e (known name_id_map params) + occurrences e (known name_id_map buffers)
unfolding Weighs
get_topology-listed param_parts buffer_parts name_id_map params buffers topology made e =
    subst
      (Weighs (λ t. occurrences e (listed t))
        (occurrences e (known name_id_map params) + occurrences e (known name_id_map buffers)))
      made (Weighs-get_topology e param_parts buffer_parts name_id_map params buffers)
