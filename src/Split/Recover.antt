-- ===== src/Split/Recover.antt =====
-- The kernel that puts exponents, signs and mantissas together again: the scalar path of
-- `cuda_recover_uint16_to_bf16` in csrc/kernels/tensor_recover.cu, and its inverse in `Split`.
use mathlib.Core.List.{flatten}
use block_lut.Prelude.{
  ℕ, ◌+◌, ◌*◌, ◌%◌, ◌^◌, ◌<◌, bit_or, ◌≡◌, refl, true, List, [], ◌∷◌, map, length, arith, All,
  agree_below, agree_below→eq,
}
use block_lut.Outcome.{ok}
use block_lut.BitPlane.{shr, low_bits, zip_with}
use block_lut.BitPlane.Readers.{unpack_planes}
use block_lut.BitPlane.RoundTrip.{IsByte, unpack_planes-pack_bitplanes}
use block_lut.Split.{Split, exponent, sign_mantissa, split_bf16, split_blocklut, uint16_bytes}
use block_lut.Split.Chunks.{split_chunks-flatten}

-- `((uint16_t)s << 15) | ((uint16_t)e << 7) | ((uint16_t)m)`
unfoldable pub recover_uint16 : ℕ → ℕ → ℕ
recover_uint16 e sm =
    let s = low_bits (shr sm 7) 1 in
    let m = low_bits sm 7 in bit_or (bit_or (s * 2 ^ 15 % 2 ^ 16) (e * 2 ^ 7 % 2 ^ 16)) m

recover_table :
    agree_below (λ w. recover_uint16 (exponent w) (sign_mantissa w)) (λ w. w) 65536 ≡ true
unfolding agree_below recover_uint16
recover_table = refl

recover_fields : (w : ℕ) → w < 65536 → recover_uint16 (exponent w) (sign_mantissa w) ≡ w
recover_fields = agree_below→eq _ (λ w. w) 65536 recover_table

abbrev pub IsWord : ℕ → Type 0
IsWord w = w < 65536

recover_words :
    (ws : List ℕ)
    → All IsWord ws
    → zip_with recover_uint16 (map exponent ws) (map sign_mantissa ws) ≡ ws
unfolding zip_with
recover_words [] h = refl
recover_words (w ∷ ws) h = cc (recover_fields w h.0, recover_words ws h.1)

-- With at least one chunk, splitting 16-bit patterns raises nothing, and the kernel puts every one
-- of them together again from the concatenated chunks and the array of signs and mantissas.
pub recover-split_bf16 :
    (weight : List ℕ) (num_file_chunks : ℕ)
    → 0 < num_file_chunks
    → All IsWord weight
    → (s : Split) × (split_bf16 weight num_file_chunks ≡ ok s)
      × (length s.chunks ≡ num_file_chunks)
      × (zip_with recover_uint16 (flatten s.chunks) s.rest ≡ weight)
unfolding split_bf16
recover-split_bf16 weight n pos words =
    let (chunks, made, count, whole, _) = split_chunks-flatten n (map exponent weight) pos in
    (
      record { chunks = chunks; rest = map sign_mantissa weight },
      rw made,
      count,
      rw whole (recover_words weight words),
    )

-- Two bytes to a word, as the kernels read the factors.
unfoldable pub read_uint16 : List ℕ → List ℕ
read_uint16 (a ∷ b ∷ bs) = (a + 256 * b) ∷ read_uint16 bs
read_uint16 bs = []

read_uint16-uint16_bytes : (ws : List ℕ) → read_uint16 (uint16_bytes ws) ≡ ws
unfolding read_uint16 uint16_bytes
read_uint16-uint16_bytes [] = refl
read_uint16-uint16_bytes (w ∷ ws) = ground (arith, read_uint16-uint16_bytes ws)

-- With at least one chunk and as many byte indices as a multiple of 4, splitting raises nothing;
-- the concatenated chunks hold the three planes of exactly these indices, and the second array
-- holds the factors, two bytes each.
pub unpack-split_blocklut :
    (indices absmax : List ℕ) (num_file_chunks : ℕ)
    → 0 < num_file_chunks
    → length indices % 4 ≡ 0
    → All IsByte indices
    → (s : Split) × (split_blocklut (indices, absmax) num_file_chunks ≡ ok s)
      × (length s.chunks ≡ num_file_chunks)
      × (unpack_planes (length indices) (flatten s.chunks) ≡ indices)
      × (read_uint16 s.rest ≡ absmax)
unfolding split_blocklut
unpack-split_blocklut indices absmax n pos fours bytes =
    let (packed, packs, _, planes) = unpack_planes-pack_bitplanes indices fours bytes in
    let (chunks, made, count, whole, _) = split_chunks-flatten n packed pos in
    (
      record { chunks = chunks; rest = uint16_bytes absmax },
      rw (packs, made),
      count,
      rw whole planes,
      read_uint16-uint16_bytes absmax,
    )
