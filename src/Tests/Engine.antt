-- ===== src/Tests/Engine.antt =====
-- The engine: the modules of a small model, and weights under a LUT of four entries.
use block_lut.Prelude.{ℕ, ◌+◌, ◌*◌, ◌≡◌, refl, List, [], ◌∷◌, map, ltb, if◌then◌else◌, arith}
use mathlib.Core.List.{flatten}
use block_lut.Hooks.{Module, node, none, more, Memory, Registration, register}
use block_lut.LutTables.{Floats, BlockLut, key, quantize_weight_to_lut, quantize_weight_to_blocklut}
use block_lut.LutTables.Keys.{
  count_less, count_below, less, IsSearch, Ascending, quantize_weight_to_lut-count_less,
}

-- Tensors 0 and 2 are offloaded.
abbrev memory : Memory
memory = record { data_ptr = λ t. 2 * t; offload_set = 0 ∷ 4 ∷ [] }

abbrev model : Module
model = node [] [] (
    more (node (0 ∷ 1 ∷ []) (2 ∷ []) none)
      (more (node [] [] (more (node (3 ∷ []) [] none) none)) none))

registers : register memory model 5 ≡ (
  Registration.set_id 5
      ∷ Registration.set_id 6
      ∷ Registration.add_hooks 6
      ∷ Registration.set_id 7
      ∷ Registration.set_id 8
      ∷ [],
  8,
)
unfolding register
registers = refl

-- The bits of -1, 0, 0.5 and 2 in bf16.
abbrev levels : List ℕ
levels = 0xbf80 ∷ 0 ∷ 0x3f00 ∷ 0x4000 ∷ []

levels-Ascending : Ascending less levels
unfolding Ascending less
levels-Ascending = (refl, (refl, (refl, tt)))

count_below-IsSearch : IsSearch count_below
unfolding IsSearch
count_below-IsSearch xs v a = refl

-- The weights are -2, -0.5, 0.75 and 3.
quantize_weight_to_lut-count_less_example :
    quantize_weight_to_lut count_below (map key levels) (0xc000 ∷ 0xbf00 ∷ 0x3f40 ∷ 0x4040 ∷ [])
    ≡ map (count_less levels) (0xc000 ∷ 0xbf00 ∷ 0x3f40 ∷ 0x4040 ∷ [])
quantize_weight_to_lut-count_less_example =
    quantize_weight_to_lut-count_less count_below levels (0xc000 ∷ 0xbf00 ∷ 0x3f40 ∷ 0x4040 ∷ [])
      count_below-IsSearch (omega arith, (omega arith, (omega arith, (omega arith, tt))))
      levels-Ascending (omega arith) (omega arith, (omega arith, (omega arith, (omega arith, tt))))

counts : map (count_less levels) (0xc000 ∷ 0xbf00 ∷ 0x3f40 ∷ 0x4040 ∷ []) ≡ 0 ∷ 1 ∷ 3 ∷ 4 ∷ []
unfolding count_less less
counts = refl

abbrev pub whole_numbers : Floats ℕ
whole_numbers = record {
  zero = 0;
  two = 2;
  tiny = 1;
  abs = λ x. x;
  add = ◌+◌;
  div = λ x y. x;
  maximum = λ x y. if ltb x y then y else x;
  amax = λ xs. 9;
  sort = λ xs. xs;
  bits = λ x. x;
  searchsorted = count_below;
}

abbrev two_levels : BlockLut ℕ
two_levels = record { blocklut_sorted = 1 ∷ 5 ∷ []; lut_uint16 = 1 ∷ 5 ∷ [] }

-- One index for each weight, and one scale for the block.
quantizes :
    quantize_weight_to_blocklut whole_numbers two_levels (3 ∷ 7 ∷ 2 ∷ []) ≡ (0 ∷ 1 ∷ 0 ∷ [], 9 ∷ [])
unfolding quantize_weight_to_blocklut flatten count_below
quantizes = refl
