-- ===== src/BitPlane.antt =====
-- The three bit planes in which the 8-bit LUT indices of a tensor are stored:
-- `pack_bitplanes` of llama-cpp-port/scripts/convert_lut.py, which is also the packing step of
-- `split_and_extract_from_tensor` in runtime/model_offload.py. An array of uint8 is a list of
-- numbers; a shift to the left keeps its wrap-around at 8 bits.
pub mod Quads
pub mod Readers
pub mod RoundTrip
use block_lut.Prelude.{
  ℕ, zero, suc, ◌+◌, ◌-◌, ◌*◌, ◌/◌, ◌%◌, ◌^◌, bit_or, List, [], ◌∷◌, ◌++◌, map, length, ◌==◌,
  if◌then◌else◌,
}
use block_lut.Outcome.{Result, ok, raise, value_error, ◌>>=◌}

-- `x >> k`
abbrev pub shr : ℕ → ℕ → ℕ
shr x k = x / 2 ^ k

-- `x & (2 ** k - 1)`
abbrev pub low_bits : ℕ → ℕ → ℕ
low_bits x k = x % 2 ^ k

-- `x << k` on uint8
abbrev pub shl8 : ℕ → ℕ → ℕ
shl8 x k = x * 2 ^ k % 256

-- `xs[start::step]`, for a step that is not 0
unfoldable pub stride {ℓ} : {A : Type ℓ} → ℕ → ℕ → List A → List A
stride start step [] = []
stride zero step (x ∷ xs) = x ∷ stride (step - 1) step xs
stride (suc start) step (x ∷ xs) = stride start step xs

unfoldable pub zip_with : (ℕ → ℕ → ℕ) → List ℕ → List ℕ → List ℕ
zip_with f [] ys = []
zip_with f (x ∷ xs) [] = []
zip_with f (x ∷ xs) (y ∷ ys) = f x y ∷ zip_with f xs ys

-- An elementwise operation on two arrays: an array of one element is stretched, and other
-- arrays of different lengths are a ValueError.
unfoldable pub broadcast : (ℕ → ℕ → ℕ) → List ℕ → List ℕ → Result (List ℕ)
unfolding zip_with
broadcast f xs (y ∷ []) = ok (map (λ x. f x y) xs)
broadcast f (x ∷ []) ys = ok (map (f x) ys)
broadcast f xs ys = if length xs == length ys then ok (zip_with f xs ys) else raise value_error

-- `a | (b << k)`
abbrev pub or_shl : ℕ → ℕ → ℕ → ℕ
or_shl k a b = bit_or a (shl8 b k)

-- Two 4-bit values to a byte.
unfoldable pub pack_nibbles : List ℕ → Result (List ℕ)
unfolding stride broadcast
pack_nibbles low = broadcast (or_shl 4) (stride 0 2 low) (stride 1 2 low)

-- Four 2-bit values to a byte.
unfoldable pub pack_crumbs : List ℕ → Result (List ℕ)
unfolding stride broadcast
pack_crumbs mid = do
  two ← broadcast (or_shl 2) (stride 0 4 mid) (stride 1 4 mid)
  three ← broadcast (or_shl 4) two (stride 2 4 mid)
  broadcast (or_shl 6) three (stride 3 4 mid)

abbrev pub low : ℕ → ℕ
low i = low_bits i 4

abbrev pub mid : ℕ → ℕ
mid i = low_bits (shr i 4) 2

abbrev pub high : ℕ → ℕ
high i = low_bits (shr i 6) 2

unfoldable pub pack_bitplanes : List ℕ → Result (List ℕ)
unfolding pack_nibbles pack_crumbs
pack_bitplanes indices = do
  packed_low ← pack_nibbles (map low indices)
  packed_mid ← pack_crumbs (map mid indices)
  packed_high ← pack_crumbs (map high indices)
  ok (packed_low ++ (packed_mid ++ packed_high))
