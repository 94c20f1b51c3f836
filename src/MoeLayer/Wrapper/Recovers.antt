-- ===== src/MoeLayer/Wrapper/Recovers.antt =====
-- What `get_weight` returns after `set_weights`.
use block_lut.Prelude.{
  ℕ, ◌*◌, ◌≤◌, ◌<◌, ◌≡◌, refl, sym, ap, ◌∙◌, true, none, some, List, [], ◌∷◌, map, length, All,
  All2, arith, ==_iff, length-map,
}
use block_lut.Outcome.{Result, ok, Returns, ◌>>=◌}
use block_lut.Split.{ceil_div}
use block_lut.Quantizer.Numbers.{Numbers, IsShaped, IsOrdered}
use block_lut.Quantizer.State.{LutQuantizer}
use block_lut.Quantizer.Codes.{Quantized, is_blockwise, quantize, decompress_blocklut}
use block_lut.Quantizer.Codes.Nearest.{IsNearest, quantize-IsNearest}
use block_lut.Quantizer.Codes.Decoded.{IsDecoded, decompress_blocklut-IsDecoded}
use block_lut.MoeLayer.Wrapper.{
  ExpertWrapper, set_weights, get_weight, kept_or_decompressed, reshape,
}

module _ {A : Type 0} (n : Numbers A) where
  within_centroids :
      (Le : A → A → Type 0) (centroids xs : List A) (k : ℕ) (ids : List ℕ)
      → length centroids ≡ k
      → All2 (IsNearest n Le centroids) xs ids
      → All (λ i. i < k) ids
  within_centroids Le centroids [] k [] h a = tt
  within_centroids Le centroids [] k (i ∷ ids) h a = elim a [ ]
  within_centroids Le centroids (x ∷ xs) k [] h a = elim a [ ]
  within_centroids Le centroids (x ∷ xs) k (i ∷ ids) h (near, rest) =
      (omega (arith, near.within), within_centroids Le centroids xs k ids h rest)

  -- The values that the codes of a weight stand for.
  abbrev pub Restores : LutQuantizer A → List A → List A → List A → Type 0
  Restores q codebook weight values =
      (z : Quantized A) × (quantize n q weight (some codebook) ≡ ok z)
      × IsDecoded n z.indices z.absmax codebook q.block_size values
      × (length values ≡ length weight)

  module _ (s : IsShaped n) {Le : A → A → Type 0} (o : IsOrdered n Le) where
    module _ (q : LutQuantizer A) (codebook : List A) where
      restores :
          (weight : List A)
          → is_blockwise q.code_type ≡ true
          → 0 < q.block_size
          → 0 < length codebook
          → length codebook ≤ 256
          → 0 < length weight
          → (z : Quantized A) × (quantize n q weight (some codebook) ≡ ok z)
            × Returns
                (λ v.
                  IsDecoded n z.indices z.absmax codebook q.block_size v
                  × (length v ≡ length weight))
                (decompress_blocklut n z.indices z.absmax codebook q.block_size)
      restores weight block hb hc hl hw =
          let (z, runs, ((scaled, scales, near), long, blocks, own)) =
            quantize-IsNearest n s o q weight codebook block hb hc hl in
          let within =
            within_centroids Le (map n.float codebook) _ (length codebook) z.indices
              (length-map n.float codebook) near in
          let (values, decodes, decoded) =
            decompress_blocklut-IsDecoded n z.indices z.absmax codebook q.block_size
              (omega (arith, long)) hb (blocks ∙ ap (λ m. ceil_div m q.block_size) (sym long))
              within in
          (z, runs, (values, decodes, (decoded, decoded.long ∙ long)))

    module _ (e : ExpertWrapper A) (w13 w2 codebook : List A) where
      -- A reshape to the number of elements that there are.
      reshape-runs :
          (size : ℕ) (v : List A) (r : Result (List A))
          → length v ≡ size
          → r ≡ ok v
          → (r >>= reshape size) ≡ ok v
      unfolding reshape
      reshape-runs size v r long runs = rw (runs, (==_iff (length v) size).1 long)

      -- For a quantizer by blocks of a positive size, a codebook of 1 to 256 entries, weights of
      -- the sizes of the expert, not empty, and a wrapper that keeps no bf16 weights:
      -- `set_weights` returns, and then `get_weight` returns, under each of the two names, as
      -- many values as there are weights, each the entry of the codebook that the index of the
      -- weight stands for, times the scale of its block.
      pub get_weight-set_weights :
          is_blockwise e.quantizer.code_type ≡ true
          → 0 < e.quantizer.block_size
          → 0 < length codebook
          → length codebook ≤ 256
          → 0 < length w13
          → 0 < length w2
          → length w13 ≡ 2 * e.intermediate_size * e.hidden_size
          → length w2 ≡ e.hidden_size * e.intermediate_size
          → e.w13_bf16 ≡ none
          → e.w2_bf16 ≡ none
          → ((set_weights n w13 w2 codebook e).0 ≡ ok tt)
            × Returns
                (Restores e.quantizer codebook w13)
                (get_weight n "w13" (set_weights n w13 w2 codebook e).1)
            × Returns
                (Restores e.quantizer codebook w2)
                (get_weight n "w2" (set_weights n w13 w2 codebook e).1)
      unfolding set_weights get_weight kept_or_decompressed
      get_weight-set_weights block hb hc hl some13 some2 size13 size2 none13 none2 =
          let q = e.quantizer in
          let (z13, quantized13, (v13, decodes13, (decoded13, long13))) =
            restores q codebook w13 block hb hc hl some13 in
          let (z2, quantized2, (v2, decodes2, (decoded2, long2))) =
            restores q codebook w2 block hb hc hl some2 in
          rw (quantized13, quantized2, none13, none2)
            (
              refl,
              (
                v13,
                reshape-runs _ v13 _ (long13 ∙ size13) decodes13,
                (z13, refl, decoded13, long13),
              ),
              (v2, reshape-runs _ v2 _ (long2 ∙ size2) decodes2, (z2, refl, decoded2, long2)),
            )
