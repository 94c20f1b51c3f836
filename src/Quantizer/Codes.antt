-- ===== src/Quantizer/Codes.antt =====
-- `quantize`, `decompress` and the functions beside the class.
pub mod Nearest
pub mod Agree
pub mod Decoded
use block_lut.Prelude.{
  ℕ, zero, suc, ◌-◌, ◌/◌, ◌%◌, min, max, String, Bool, true, false, ◌&&◌, Option, none, some, List,
  [], ◌∷◌, map, length, take, range', ltb, leb, if◌then◌else◌,
}
use block_lut.Outcome.{require, Result, ok, raise, runtime_error, index_error, ◌>>=◌, ◌>>◌}
use block_lut.Split.{CodeType}
use block_lut.Quantizer.Numbers.{Numbers, gather}
use block_lut.Quantizer.State as State
use block_lut.Quantizer.State.{LutQuantizer}
use block_lut.Quantizer.Kmeans.{argmin_rows}
use block_lut.Quantizer.Blocks.{blocks_of, absmax_of, normalized, train}

-- `code_type in ("BLOCKLUT", "NESTEDLUT")`
unfoldable pub is_blockwise : CodeType → Bool
is_blockwise CodeType.blocklut = true
is_blockwise CodeType.nestedlut = true
is_blockwise _ = false

pub record Quantized (A : Type 0) : Type 0 where
  pub indices : List ℕ
  pub absmax : List A
  pub codebook : List A

pub record ExpertCodes (A : Type 0) : Type 0 where
  pub indices : List (List ℕ)
  pub absmax : List (List A)
  pub codebook : Option (List A)

-- `codebook`, or the quantizer's own where it is None.
unfoldable pub chosen_codebook : {A : Type 0} → Option (List A) → Option (List A) → Result (List A)
chosen_codebook (some codebook) own = ok codebook
chosen_codebook none (some codebook) = ok codebook
chosen_codebook none none = raise runtime_error

-- `block_id.max()`: of no elements it is a RuntimeError.
unfoldable pub max_of : List ℕ → Result ℕ
max_of [] = raise runtime_error
max_of (i ∷ []) = ok i
max_of (i ∷ j ∷ is) = max_of (j ∷ is) >>= λ m. ok (max i m)

-- `torch.arange(n) // block_size`: integer division by 0 is a RuntimeError.
unfoldable pub block_ids : ℕ → ℕ → Result (List ℕ)
block_ids n zero = raise runtime_error
block_ids n (suc b) = ok (map (λ i. i / suc b) (range' 0 n))

-- `block_id` clamped to the blocks that there are.
unfoldable pub clamped_ids : ℕ → ℕ → ℕ → Result (List ℕ)
unfolding block_ids max_of
clamped_ids n block_size blocks = do
  block_id ← block_ids n block_size
  largest ← max_of block_id
  ok (if leb blocks largest then map (λ i. min i (blocks - 1)) block_id else block_id)

module _ {A : Type 0} (n : Numbers A) where
  -- `normalized * scale`, element by element.
  unfoldable pub scaled : List A → List A → List A
  scaled [] scale = []
  scaled (x ∷ xs) [] = []
  scaled (x ∷ xs) (s ∷ scale) = n.mul x s ∷ scaled xs scale

  -- The global normalisation of the basic LUT: `max()` of no elements is a RuntimeError.
  unfoldable pub normalize_globally : List A → Result (List A × List A)
  unfolding absmax_of
  normalize_globally [] = raise runtime_error
  normalize_globally (x ∷ xs) =
      let absmax_val = absmax_of n (x ∷ xs) in
      ok (map (λ y. n.div y absmax_val) (x ∷ xs), absmax_val ∷ [])

  unfoldable pub normalize_blocks : ℕ → List A → Result (List A × List A)
  unfolding blocks_of normalized absmax_of
  normalize_blocks block_size xs =
      blocks_of n block_size xs >>= λ blocks. ok (normalized n blocks, map (absmax_of n) blocks)

  unfoldable pub quantize : LutQuantizer A → List A → Option (List A) → Result (Quantized A)
  unfolding chosen_codebook normalize_globally normalize_blocks is_blockwise argmin_rows
  quantize q weight override = do
    codebook ← chosen_codebook override q.lut_codebook
    (train_data, absmax) ←
        (if is_blockwise q.code_type
          then normalize_blocks q.block_size weight
          else normalize_globally weight)
    nearest_ids ← argmin_rows n (map n.float codebook) (map n.float train_data)
    ok (record {
      indices = take (length weight) (map (λ i. i % 256) nearest_ids);
      absmax = map n.bfloat16 absmax;
      codebook = codebook;
    })

  -- `absmax[0]`
  unfoldable pub scale_globally : List A → List A → Result (List A)
  scale_globally xs [] = raise index_error
  scale_globally xs (a ∷ absmax) = ok (map (λ x. n.mul x a) xs)

  -- Each element by the scale of its block.
  unfoldable pub scale_blocks : ℕ → ℕ → List A → List A → Result (List A)
  unfolding gather clamped_ids scaled
  scale_blocks count block_size absmax values = do
    block_id ← clamped_ids count block_size (length absmax)
    scale ← gather absmax block_id
    ok (scaled values scale)

  unfoldable pub decompress_blocklut : List ℕ → List A → List A → ℕ → Result (List A)
  unfolding gather scale_blocks
  decompress_blocklut indices absmax codebook block_size =
      gather codebook indices >>= scale_blocks (length indices) block_size absmax

  unfoldable pub scale_values : Bool → ℕ → ℕ → List A → List A → Result (List A)
  unfolding scale_blocks scale_globally
  scale_values true count block_size absmax values = scale_blocks count block_size absmax values
  scale_values false count block_size absmax values = scale_globally values absmax

  unfoldable pub decompress : LutQuantizer A → List ℕ → List A → List A → Result (List A)
  unfolding gather scale_values is_blockwise
  decompress q indices absmax codebook =
      gather codebook indices
      >>= scale_values (is_blockwise q.code_type && ltb 1 (length absmax)) (length indices)
          q.block_size absmax

  -- `lut_size` is not passed on.
  unfoldable pub train_lut_codebook : List A → String → ℕ → ℕ → ℕ → Result (LutQuantizer A)
  unfolding State.init train
  train_lut_codebook weights code_type block_size lut_size n_iter =
      State.init code_type block_size 256 >>= λ quantizer. train n quantizer weights n_iter

  -- The loop over the experts.
  unfoldable pub quantize_all : LutQuantizer A → List (List A) → Result (List (Quantized A))
  unfolding quantize
  quantize_all q [] = ok []
  quantize_all q (w ∷ ws) =
      quantize q w none >>= λ result. quantize_all q ws >>= λ rest. ok (result ∷ rest)

  -- `torch.stack` of no tensors is a RuntimeError.
  unfoldable pub quantize_expert_weights : LutQuantizer A → List (List A) → Result (ExpertCodes A)
  unfolding quantize_all
  quantize_expert_weights q weights = quantize_all q weights >>= λ results.
      require (ltb 0 (length results)) runtime_error
      >> ok (record {
        indices = map (λ r. r.indices) results;
        absmax = map (λ r. r.absmax) results;
        codebook = q.lut_codebook;
      })
