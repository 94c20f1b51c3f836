-- ===== src/Architecture/Experts.antt =====
-- The layer and the expert that a parameter's name stands for.
use native.Mathlib.Nat.{div-one, div-add-mod, div-lt_iff_lt-mul}
use block_lut.Prelude.{
  ℕ, suc, ◌+◌, ◌*◌, ◌/◌, ◌%◌, ◌<◌, ◌≡◌, refl, sym, ap, ◌∙◌, true, false, ◌||◌, Option, none, some,
  String, arith, contains, Bool-cases, inl, inr, if◌then◌else◌,
}
use block_lut.Outcome.{Result, ok, raise, ◌>>=◌}
use block_lut.Architecture.{
  PretrainedConfig, attribute, floor_div, decoder_param, parse_moe_param, LayerType, encoder,
  decoder, Patterns, sparse_layer, decoder_layer, expert_of, parse_expert_id, encoder_sparse_step,
  decoder_sparse_step, num_hidden_layers, num_local_experts, num_experts, n_routed_experts, Field,
}

-- What the pattern of the architecture finds in a name, for the models without an encoder.
abbrev found : Patterns → String → String → Option (ℕ × ℕ)
found patterns architecture name =
    if contains architecture "mixtral" || contains architecture "arctic"
    then patterns.sparse_moe_expert name
    else if contains architecture "grok"
    then patterns.moe_block_expert name
    else patterns.mlp_expert name

decoder_layer-zero : (r : Option (ℕ × ℕ)) → decoder_layer 0 r ≡ ok r
unfolding decoder_layer floor_div
decoder_layer-zero none = refl
decoder_layer-zero (some (layer, expert)) =
    ap (λ l. ok (some (l, expert))) (omega (arith, div-one layer))

decoder_param-encoder :
    (config : PretrainedConfig) (f : Field) (param : ℕ × ℕ × ℕ)
    → decoder_param config f ≡ ok param
    → param.2 ≡ 0
unfolding decoder_param
decoder_param-encoder config f param h =
    go (attribute config num_hidden_layers) (attribute config f) h
  where
    go : (a b : Result ℕ) → (a >>= λ n. b >>= λ e. ok (n, e, 0)) ≡ ok param → param.2 ≡ 0
    go (raise x) b h' = absurd (cc h')
    go (ok n) (raise x) h' = absurd (cc h')
    go (ok n) (ok e) h' = sym (ap (λ (r : Result (ℕ × ℕ × ℕ)). third r) h')
      where
        third : Result (ℕ × ℕ × ℕ) → ℕ
        third (raise x) = 0
        third (ok p) = p.2

parse_moe_param-decoder :
    (config : PretrainedConfig) (param : ℕ × ℕ × ℕ)
    → contains config.architecture "switch" ≡ false
    → contains config.architecture "nllb" ≡ false
    → parse_moe_param config ≡ ok param
    → param.2 ≡ 0
unfolding parse_moe_param
parse_moe_param-decoder config param s n h =
    elim (Bool-cases
      (contains config.architecture "mixtral" || contains config.architecture "arctic")) [
        | inl m ↦
            decoder_param-encoder config num_local_experts param
              (rw (parse_moe_param, s, n, m) at h)
        | inr m ↦
            elim (Bool-cases
              (contains config.architecture "grok" || contains config.architecture "qwen")) [
                | inl g ↦
                    decoder_param-encoder config num_experts param
                      (rw (parse_moe_param, s, n, m, g) at h)
                | inr g ↦ elim (Bool-cases (contains config.architecture "deepseek")) [
                  | inl d ↦
                      decoder_param-encoder config n_routed_experts param
                        (rw (parse_moe_param, s, n, m, g, d) at h)
                  | inr d ↦ absurd (cc (rw (parse_moe_param, s, n, m, g, d) at h))
                ]
              ]
      ]

-- For an architecture without an encoder whose parameters can be read, there are no encoder
-- layers, and the key of a name is exactly what the pattern of the architecture finds in it: the
-- layer is neither scaled nor shifted.
parse_expert_id-found :
    (patterns : Patterns) (name : String) (config : PretrainedConfig) (param : ℕ × ℕ × ℕ)
    → contains config.architecture "switch" ≡ false
    → contains config.architecture "nllb" ≡ false
    → parse_moe_param config ≡ ok param
    → (param.2 ≡ 0)
      × (parse_expert_id patterns name config ≡ ok (found patterns config.architecture name))
unfolding parse_expert_id expert_of
parse_expert_id-found patterns name config param s n h =
    let none_encoded = parse_moe_param-decoder config param s n h in
    (
      none_encoded,
      rw (parse_expert_id, h, expert_of, none_encoded, s, n)
          (elim (Bool-cases
            (contains config.architecture "mixtral" || contains config.architecture "arctic")) [
              | inl m ↦ rw m (decoder_layer-zero (patterns.sparse_moe_expert name))
              | inr m ↦ elim (Bool-cases (contains config.architecture "grok")) [
                | inl g ↦ rw (m, g) (decoder_layer-zero (patterns.moe_block_expert name))
                | inr g ↦ rw (m, g) (decoder_layer-zero (patterns.mlp_expert name))
              ]
            ]),
    )

-- The layers of a switch model, by type: below the number of encoder layers in steps, and in
-- which place of a step they stand.
abbrev pub IsPlaced : ℕ → ℕ → ℕ → ℕ → ℕ → LayerType → ℕ → Type 0
IsPlaced encoder_step decoder_step encoder_place decoder_place encoders encoder layer =
    (layer < encoders * encoder_step) × (layer % encoder_step ≡ encoder_place)
IsPlaced encoder_step decoder_step encoder_place decoder_place encoders decoder layer =
    layer % decoder_step ≡ decoder_place

-- With positive steps the key is a number for each expert.
layer_of : ℕ → ℕ → ℕ → LayerType → ℕ → ℕ
layer_of es ds n encoder l = l / suc es
layer_of es ds n decoder l = l / suc ds + n

same_layer : (step l1 l2 : ℕ) → l1 % step ≡ l2 % step → l1 / step ≡ l2 / step → l1 ≡ l2
same_layer step l1 l2 m d =
    sym (div-add-mod l1 step)
    ∙ ap (λ q. step * q + l1 % step) d
    ∙ ap (λ r. step * (l2 / step) + r) m
    ∙ div-add-mod l2 step

layer_of-injective :
    (es ds ep dp n : ℕ) (t1 t2 : LayerType) (l1 l2 : ℕ)
    → IsPlaced (suc es) (suc ds) ep dp n t1 l1
    → IsPlaced (suc es) (suc ds) ep dp n t2 l2
    → layer_of es ds n t1 l1 ≡ layer_of es ds n t2 l2
    → (t1 ≡ t2) × (l1 ≡ l2)
unfolding layer_of
layer_of-injective es ds ep dp n encoder encoder l1 l2 p q h =
    (refl, same_layer (suc es) l1 l2 (p.1 ∙ sym q.1) h)
layer_of-injective es ds ep dp n encoder decoder l1 l2 p q h =
    absurd (omega (arith, h, (div-lt_iff_lt-mul {k = suc es} {x = l1} {y = n} (omega arith)).1 p.0))
layer_of-injective es ds ep dp n decoder encoder l1 l2 p q h =
    absurd (omega (arith, h, (div-lt_iff_lt-mul {k = suc es} {x = l2} {y = n} (omega arith)).1 q.0))
layer_of-injective es ds ep dp n decoder decoder l1 l2 p q h =
    (refl, same_layer (suc ds) l1 l2 (p ∙ sym q) (omega (arith, h)))

sparse_layer-layer_of :
    (es ds n : ℕ) (t : LayerType) (l e : ℕ)
    → sparse_layer (suc es) (suc ds) n (some (t, l, e)) ≡ ok (some (layer_of es ds n t l, e))
unfolding sparse_layer floor_div layer_of
sparse_layer-layer_of es ds n encoder l e = ground arith
sparse_layer-layer_of es ds n decoder l e = ground arith

abbrev key_of : Result (Option (ℕ × ℕ)) → ℕ × ℕ
key_of (raise x) = (0, 0)
key_of (ok none) = (0, 0)
key_of (ok (some k)) = k

parsed :
    (patterns : Patterns) (name : String) (config : PretrainedConfig) (param : ℕ × ℕ × ℕ)
    (es ds : ℕ) (t : LayerType) (l e : ℕ)
    → contains config.architecture "switch" ≡ true
    → parse_moe_param config ≡ ok param
    → attribute config encoder_sparse_step ≡ ok (suc es)
    → attribute config decoder_sparse_step ≡ ok (suc ds)
    → patterns.switch_expert name ≡ some (t, l, e)
    → parse_expert_id patterns name config ≡ ok (some (layer_of es ds param.2 t l, e))
unfolding parse_expert_id expert_of
parsed patterns name config param es ds t l e s h a b f =
    rw (parse_expert_id, h, expert_of, s, a, b, f) (sparse_layer-layer_of es ds param.2 t l e)

-- In a switch model with positive steps, of which the MoE layers of each type stand at the same
-- place of a step and the encoder layers within the number that is configured, two names of
-- experts get the same key only if they name the same expert of the same layer of the same type:
-- encoder and decoder layers never share a key.
pub parse_expert_id-injective :
    (patterns : Patterns) (name1 name2 : String) (config : PretrainedConfig) (param : ℕ × ℕ × ℕ)
    (es ds ep dp : ℕ) (t1 t2 : LayerType) (l1 l2 e1 e2 : ℕ)
    → contains config.architecture "switch" ≡ true
    → parse_moe_param config ≡ ok param
    → attribute config encoder_sparse_step ≡ ok (suc es)
    → attribute config decoder_sparse_step ≡ ok (suc ds)
    → patterns.switch_expert name1 ≡ some (t1, l1, e1)
    → patterns.switch_expert name2 ≡ some (t2, l2, e2)
    → IsPlaced (suc es) (suc ds) ep dp param.2 t1 l1
    → IsPlaced (suc es) (suc ds) ep dp param.2 t2 l2
    → parse_expert_id patterns name1 config ≡ parse_expert_id patterns name2 config
    → (t1 ≡ t2) × (l1 ≡ l2) × (e1 ≡ e2)
parse_expert_id-injective patterns name1 name2 config param es ds ep dp t1 t2 l1 l2 e1 e2 s h a b f1
      f2 p1 p2 same =
    let first = parsed patterns name1 config param es ds t1 l1 e1 s h a b f1 in
    let second = parsed patterns name2 config param es ds t2 l2 e2 s h a b f2 in
    let keys = ap key_of (sym first ∙ same ∙ second) in
    let layers =
      layer_of-injective es ds ep dp param.2 t1 t2 l1 l2 p1 p2 (ap (λ (k : ℕ × ℕ). k.0) keys) in
    (layers.0, layers.1, ap (λ (k : ℕ × ℕ). k.1) keys)
