-- ===== src/Split.antt =====
-- `split_and_extract_from_tensor` of runtime/model_offload.py: a tensor becomes chunks, which are
-- compressed and read one by one, and a second array that is kept whole. With BLOCKLUT and
-- NESTEDLUT the chunks are cut from the packed LUT indices; otherwise from the exponents of the
-- bf16 values, whose signs and mantissas are the second array. A bf16 value is its bit pattern.
pub mod Chunks
pub mod Recover
use block_lut.Prelude.{
  ℕ, zero, suc, ◌+◌, ◌-◌, ◌*◌, ◌/◌, ◌%◌, ◌^◌, min, bit_or, String, List, [], ◌∷◌, map, length, take,
  drop, ◌==◌, if◌then◌else◌,
}
use block_lut.Outcome.{Result, ok, raise, zero_division, ◌>>=◌}
use block_lut.BitPlane.{shr, low_bits, shl8, pack_bitplanes}

-- The codecs of `DELAY_PROFILE`.
pub data CodeType : Type 0 where
  raw lz4 lz4hc zstd lut blocklut nestedlut : CodeType

-- `(n + k - 1) // k`
abbrev pub ceil_div : ℕ → ℕ → ℕ
ceil_div n k = (n + k - 1) / k

-- `xs[start:stop]`
abbrev pub slice {ℓ} : {A : Type ℓ} → ℕ → ℕ → List A → List A
slice start stop xs = take (stop - start) (drop start xs)

-- The loop over `chunk_idx`, for the `rounds` chunks from `chunk_idx` on.
unfoldable pub chunks_from {ℓ} : {A : Type ℓ} → ℕ → ℕ → ℕ → List A → List (List A)
chunks_from zero chunk_idx elements_per_chunk xs = []
chunks_from (suc rounds) chunk_idx elements_per_chunk xs =
    slice (chunk_idx * elements_per_chunk) (min (length xs) ((chunk_idx + 1) * elements_per_chunk))
      xs
    ∷ chunks_from rounds (chunk_idx + 1) elements_per_chunk xs

-- `//` by no chunks is a ZeroDivisionError.
unfoldable pub split_chunks {ℓ} : {A : Type ℓ} → ℕ → List A → Result (List (List A))
unfolding chunks_from
split_chunks zero xs = raise zero_division
split_chunks (suc k) xs =
    let elements_per_chunk = ceil_div (length xs) (suc k) in
    ok (chunks_from (suc k) 0 elements_per_chunk xs)

-- `view(np.uint8)` of an array of uint16, on a little-endian machine.
unfoldable pub uint16_bytes : List ℕ → List ℕ
uint16_bytes [] = []
uint16_bytes (w ∷ ws) = low_bits w 8 ∷ shr w 8 ∷ uint16_bytes ws

abbrev pub exponent : ℕ → ℕ
exponent w = low_bits (shr w 7) 8

-- `((w >> 15) & 0x1) << 7 | (w & 0x7F)`
abbrev pub sign_mantissa : ℕ → ℕ
sign_mantissa w = bit_or (shl8 (low_bits (shr w 15) 1) 7) (low_bits w 7)

pub record Split : Type 0 where
  pub chunks : List (List ℕ)
  pub rest : List ℕ

unfoldable pub split_blocklut : List ℕ × List ℕ → ℕ → Result Split
unfolding pack_bitplanes split_chunks uint16_bytes
split_blocklut (indices, absmax_uint16) num_file_chunks = do
  packed ← pack_bitplanes indices
  indices_chunks ← split_chunks num_file_chunks packed
  ok (record { chunks = indices_chunks; rest = uint16_bytes absmax_uint16 })

unfoldable pub split_bf16 : List ℕ → ℕ → Result Split
unfolding split_chunks
split_bf16 weight_uint16 num_file_chunks = do
  exponents_chunks ← split_chunks num_file_chunks (map exponent weight_uint16)
  ok (record { chunks = exponents_chunks; rest = map sign_mantissa weight_uint16 })

-- The weight comes as its bit patterns; `quantize` is `_quantize_weight_to_blocklut`.
unfoldable pub split_and_extract_from_tensor :
    CodeType → (List ℕ → List ℕ × List ℕ) → List ℕ → ℕ → Result Split
unfolding split_blocklut split_bf16
split_and_extract_from_tensor CodeType.blocklut quantize weight n =
    split_blocklut (quantize weight) n
split_and_extract_from_tensor CodeType.nestedlut quantize weight n =
    split_blocklut (quantize weight) n
split_and_extract_from_tensor code_type quantize weight n = split_bf16 weight n
