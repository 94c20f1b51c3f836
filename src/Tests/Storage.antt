-- ===== src/Tests/Storage.antt =====
-- Packing, splitting and reading back of small tensors.
use mathlib.Core.List.{flatten}
use block_lut.Prelude.{
  true, drop, ◌++◌, ℕ, ◌%◌, ◌≤◌, ◌≡◌, refl, List, [], ◌∷◌, map, length, take, arith, All,
}
use block_lut.Outcome.{ok, raise, value_error, zero_division}
use block_lut.BitPlane.{pack_bitplanes, zip_with}
use block_lut.BitPlane.Readers.{read_planes, unpack_4bit, unpack_six, unpack_planes}
use block_lut.BitPlane.RoundTrip.{unpack_planes-pack_bitplanes, tiers-pack_bitplanes}
use block_lut.Split.{Split, split_chunks, split_bf16, split_blocklut, ceil_div}
use block_lut.Split.Chunks.{split_chunks-flatten}
use block_lut.Split.Recover.{recover_uint16, recover-split_bf16, read_uint16, unpack-split_blocklut}

abbrev indices : List ℕ
indices = 0 ∷ 255 ∷ 18 ∷ 52 ∷ 200 ∷ 7 ∷ 129 ∷ 64 ∷ []

abbrev packed_indices : List ℕ
packed_indices = 240 ∷ 66 ∷ 120 ∷ 1 ∷ 220 ∷ 0 ∷ 12 ∷ 99 ∷ []

pack_bitplanes_run : pack_bitplanes indices ≡ ok packed_indices
unfolding pack_bitplanes
pack_bitplanes_run = refl

-- Nine indices make planes of unequal slices.
pack_bitplanes_odd : pack_bitplanes (1 ∷ indices) ≡ raise value_error
unfolding pack_bitplanes
pack_bitplanes_odd = refl

split_chunks_none : split_chunks 0 indices ≡ raise zero_division
unfolding split_chunks
split_chunks_none = refl

unpack_planes-pack_bitplanes_example :
    (packed : List ℕ) × (pack_bitplanes indices ≡ ok packed)
    × (length packed ≡ length indices)
    × (unpack_planes (length indices) packed ≡ indices)
unpack_planes-pack_bitplanes_example =
    unpack_planes-pack_bitplanes indices (omega arith) (omega arith)

tiers-pack_bitplanes_example :
    (unpack_4bit (flatten (read_planes true 2 (packed_indices ∷ []))) ≡ map (λ i. i % 16) indices)
    × (unpack_six 8 (flatten (read_planes true 1 (packed_indices ∷ [])))
        ≡ map (λ i. i % 64) indices)
tiers-pack_bitplanes_example = tiers-pack_bitplanes indices (omega arith) pack_bitplanes_run

-- Of two chunks, tier 2 reads half of the low plane and half of the other planes.
two_chunks :
    flatten (read_planes true 2 (take 4 packed_indices ∷ drop 4 packed_indices ∷ []))
    ≡ (take 2 packed_indices ++ take 2 (drop 4 packed_indices))
unfolding read_planes flatten
two_chunks = refl

split_chunks-flatten_example :
    (chunks : List (List ℕ)) × (split_chunks 3 indices ≡ ok chunks)
    × (length chunks ≡ 3)
    × (flatten chunks ≡ indices)
    × All (λ chunk. length chunk ≤ ceil_div (length indices) 3) chunks
split_chunks-flatten_example = split_chunks-flatten 3 indices (omega arith)

-- 1.0, -2.0 and a small number as bf16 patterns
abbrev weights : List ℕ
weights = 0x3f80 ∷ 0xc000 ∷ 0x3a12 ∷ []

recover-split_bf16_example :
    (s : Split) × (split_bf16 weights 2 ≡ ok s)
    × (length s.chunks ≡ 2)
    × (zip_with recover_uint16 (flatten s.chunks) s.rest ≡ weights)
recover-split_bf16_example = recover-split_bf16 weights 2 (omega arith) (omega arith)

unpack-split_blocklut_example :
    (s : Split) × (split_blocklut (indices, 0x3e00 ∷ []) 5 ≡ ok s)
    × (length s.chunks ≡ 5)
    × (unpack_planes (length indices) (flatten s.chunks) ≡ indices)
    × (read_uint16 s.rest ≡ 0x3e00 ∷ [])
unpack-split_blocklut_example =
    unpack-split_blocklut indices (0x3e00 ∷ []) 5 (omega arith) (omega arith) (omega arith)
