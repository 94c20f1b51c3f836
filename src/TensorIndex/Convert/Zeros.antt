-- ===== src/TensorIndex/Convert/Zeros.antt =====
-- What `convert_offload` writes: since a tensor is no buffer, zeros.
use mathlib.Core.Logic.{ite}
use native.Mathlib.Decide.{ℕ_discrete}
use block_lut.Prelude.{
  ℕ, suc, ◌≤◌, ◌≡◌, refl, sym, subst, String, Bool, true, false, Bool-cases, inl, inr, ◌&&◌, Option,
  none, some, Option-cases, List, [], ◌∷◌, length, replicate, ◌==◌, string_discrete, arith,
  if◌then◌else◌,
}
use block_lut.Outcome.{Gives, Gives-bind, Result, ok, raise, value_error}
use block_lut.Dict
use block_lut.Dict.{Dict}
use block_lut.TensorIndex.{Entry, read_index, times}
use block_lut.TensorIndex.Convert.{
  Dtype, Tensor, Torch, Converted, is_bfloat16, is_uint8, is_expert, count_tensor, store_tensor,
  interpret, read_chunks, read_param_data, convert_entries, convert_offload, id_to_name, dtype_of,
}

-- Every entry has the property.
abbrev pub Values : {K V : Type 0} → (V → Type 0) → Dict K V → Type 0
Values P [] = Unit {0}
Values P ((k, v) ∷ d) = P v × Values P d

Values-put :
    {K V : Type 0} (dec : Discrete K) (P : V → Type 0) (k : K) (v : V) (d : Dict K V)
    → P v
    → Values P d
    → Values P (Dict.put dec k v d) × (length (Dict.put dec k v d) ≤ suc (length d))
unfolding Dict.put
Values-put dec P k v [] p h = ((p, tt), omega arith)
Values-put dec P k v ((j, w) ∷ d) p (q, h) = branch (dec j k) (Values-put dec P k v d p h)
  where
    branch :
        (b : Dec (j ≡ k))
        → Values P (Dict.put dec k v d) × (length (Dict.put dec k v d) ≤ suc (length d))
        → Values P (ite b ((j, v) ∷ d) ((j, w) ∷ Dict.put dec k v d))
          × (length (ite b ((j, v) ∷ d) ((j, w) ∷ Dict.put dec k v d)) ≤ suc (suc (length d)))
    branch (yes e) r = ((p, h), omega arith)
    branch (no e) (r, l) = ((q, r), omega arith)

-- A dtype is not bfloat16 and uint8 at once.
dense :
    {A : Type 0} (e c : Bool) (d : Dtype) (x y : A)
    → (if e && c && is_bfloat16 d then (if is_uint8 d then x else y) else y) ≡ y
unfolding is_bfloat16 is_uint8
dense false c d x y = refl
dense true false d x y = refl
dense true true Dtype.bfloat16 x y = refl
dense true true Dtype.float16 x y = refl
dense true true Dtype.float32 x y = refl
dense true true Dtype.int32 x y = refl
dense true true Dtype.uint8 x y = refl
dense true true Dtype.int8 x y = refl
dense true true Dtype.int64 x y = refl

anything : {A : Type 0} (m : Result A) → Gives (λ _. Unit {0}) m
anything (ok a) = tt
anything (raise e) = tt

module _ {V : Type 0} (t : Torch V) where
  -- All elements are zero.
  abbrev pub IsZero : Tensor V → Type 0
  IsZero x = (k : ℕ) × (x.values ≡ replicate k t.zero)

  -- Every tensor that is stored is zero and none is counted as an expert; each is counted.
  pub record IsBlank (s : Converted V) : Type 0 where
    pub zeros : Values IsZero s.state_dict
    pub no_experts : s.expert_count ≡ 0
    pub counted : length s.state_dict ≤ s.dense_count

  store_tensor-IsBlank :
      (has_codebook : Bool) (name : String) (x : Tensor V) (s : Converted V)
      → IsZero x
      → IsBlank s
      → IsBlank (store_tensor has_codebook name (some x) s)
  unfolding store_tensor count_tensor
  store_tensor-IsBlank c name x s z b =
      let (zeros, long) = Values-put string_discrete IsZero name x s.state_dict z b.zeros in
      subst IsBlank (sym (dense (is_expert name) c x.dtype _ _)) (record {
        zeros = zeros;
        no_experts = b.no_experts;
        counted = omega (arith, long, b.counted);
      })

  abbrev ZeroOrNone : Option (Tensor V) → Type 0
  ZeroOrNone none = Unit {0}
  ZeroOrNone (some x) = IsZero x

  stored :
      (has_codebook : Bool) (name : String) (x : Option (Tensor V)) (s : Converted V)
      → ZeroOrNone x
      → IsBlank s
      → IsBlank (store_tensor has_codebook name x s)
  unfolding store_tensor
  stored c name none s z b = b
  stored c name (some x) s z b = store_tensor-IsBlank c name x s z b

  module _ (refused : (full : List ℕ) (d : Dtype) → t.frombuffer full d ≡ raise value_error) where
    interpret-zero :
        (full : List ℕ) (d : Dtype) (k : ℕ)
        → interpret t (t.frombuffer full d) k ≡ replicate k t.zero
    unfolding interpret
    interpret-zero full d k = rw (refused full d) refl

    read_param_data-IsZero :
        (param : List ℕ) (e : Entry) → Gives ZeroOrNone (read_param_data t param e)
    unfolding read_param_data
    read_param_data-IsZero param e = elim (Bool-cases (times e.num_chunks == 0)) [
      | inl none_there ↦ rw none_there tt
      | inr some_there ↦ rw some_there (
          Gives-bind (λ _. Unit {0}) _ (read_chunks param e (times e.num_chunks) 0) _
            (anything (read_chunks param e (times e.num_chunks) 0))
            (λ full _.
              let d = dtype_of e.dtype_code in
              Gives-bind (λ _. Unit {0}) _
                (t.reshape (length (interpret t (t.frombuffer full d) e.num_elements)) e.shape) _
                (anything _) (λ u _. (e.num_elements, interpret-zero full d e.num_elements))))
    ]

    convert_entries-IsBlank :
        (param : List ℕ) (names : Dict ℕ String) (has_codebook : Bool) (entries : List Entry)
        (s : Converted V)
        → IsBlank s
        → Gives IsBlank (convert_entries t param names has_codebook entries s)
    unfolding convert_entries
    convert_entries-IsBlank param names c [] s b = b
    convert_entries-IsBlank param names c (e ∷ entries) s b =
        elim (Option-cases (Dict.get ℕ_discrete e.id names)) [
          | inl unnamed ↦ rw (Gives, unnamed) (convert_entries-IsBlank param names c entries s b)
          | inr (name, named) ↦
              rw (Gives, named)
                (Gives-bind ZeroOrNone _ (read_param_data t param e) _
                  (read_param_data-IsZero param e)
                  (λ x z.
                    convert_entries-IsBlank param names c entries (store_tensor c name x s)
                      (stored c name x s z b)))
        ]

    -- Where torch refuses to take a tensor for a buffer, whatever the files hold: if
    -- `convert_offload` returns, then all tensors that it stores are zero, not one is counted as an
    -- expert, and there are no more tensors than the dense ones it has counted.
    pub convert_offload-IsBlank :
        (index param : List ℕ) (name_map : Dict String ℕ) (has_codebook : Bool)
        → Gives IsBlank (convert_offload t index param name_map has_codebook)
    unfolding convert_offload
    convert_offload-IsBlank index param name_map c =
        Gives-bind (λ _. Unit {0}) _ (read_index index) _ (anything (read_index index))
          (λ entries _.
            convert_entries-IsBlank param (id_to_name name_map []) c entries _
              (record { zeros = tt; no_experts = refl; counted = omega arith }))
