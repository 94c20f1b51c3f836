-- ===== src/BitPlane/Readers.antt =====
-- How packed indices are read back: `io_exponents_submit` of csrc/tensor_engine/tensor_engine.cpp
-- (how much of a chunk is read at a tier) and the two-stage kernel `unpack_4bit` of
-- csrc/kernels/tensor_recover.cu. `unpack_six` and `unpack_planes` are no code of the program:
-- they say what the planes mean, for 6 and for 8 bits of each index.
use block_lut.Prelude.{
  ℕ, ◌+◌, ◌*◌, ◌/◌, List, [], ◌∷◌, take, drop, ◌==◌, if◌then◌else◌, Bool, ◌&&◌, ltb, map, length,
}
use block_lut.BitPlane.{shr, low_bits, zip_with}

-- The bytes of a chunk that are read: of a chunk of LUT indices at tier 2 the first half, at tier
-- 1 the first three quarters, and otherwise all.
unfoldable pub read_size : Bool → ℕ → ℕ → ℕ → ℕ
read_size is_blocklut tier compressed_size original_size =
    if is_blocklut && ltb 0 tier
    then (if tier == 2
        then original_size / 2
        else if tier == 1
        then original_size * 3 / 4
        else compressed_size)
    else compressed_size

-- The loop over the chunks of a tensor, each read on its own; chunks of LUT indices are stored as
-- they are.
unfoldable pub read_planes : Bool → ℕ → List (List ℕ) → List (List ℕ)
unfolding read_size
read_planes is_blocklut tier chunks =
    map (λ chunk. take (read_size is_blocklut tier (length chunk) (length chunk)) chunk) chunks

-- Both stages of the kernel: a packed byte becomes two indices.
unfoldable pub unpack_4bit : List ℕ → List ℕ
unpack_4bit [] = []
unpack_4bit (p ∷ ps) = low_bits p 4 ∷ low_bits (shr p 4) 4 ∷ unpack_4bit ps

unfoldable pub unpack_crumbs : List ℕ → List ℕ
unpack_crumbs [] = []
unpack_crumbs (p ∷ ps) =
    low_bits p 2
    ∷ low_bits (shr p 2) 2
    ∷ low_bits (shr p 4) 2
    ∷ low_bits (shr p 6) 2
    ∷ unpack_crumbs ps

-- An index from its low four bits and two more.
abbrev pub add_plane : ℕ → ℕ → ℕ → ℕ
add_plane weight a b = a + weight * b

-- Six bits of each of `n` indices, from the first two planes.
unfoldable pub unpack_six : ℕ → List ℕ → List ℕ
unfolding unpack_4bit unpack_crumbs zip_with
unpack_six n planes =
    zip_with (add_plane 16) (unpack_4bit (take (n / 2) planes))
      (unpack_crumbs (take (n / 4) (drop (n / 2) planes)))

-- Each of `n` indices, from its three planes.
unfoldable pub unpack_planes : ℕ → List ℕ → List ℕ
unfolding unpack_six
unpack_planes n planes =
    zip_with (add_plane 64) (unpack_six n planes) (unpack_crumbs (drop (n / 2 + n / 4) planes))
