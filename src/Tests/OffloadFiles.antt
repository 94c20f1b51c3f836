-- ===== src/Tests/OffloadFiles.antt =====
-- An index of offloaded tensors: two entries written and read back, and their conversion.
use block_lut.Prelude.{ℕ, ◌≡◌, refl, true, [], ◌∷◌, arith}
use block_lut.Outcome.{ok, raise, Gives, value_error}
use block_lut.TensorIndex.{ℤ, Entry, read_index}
use block_lut.TensorIndex.Writer.{Flags, write_entries, IsWritable}
use block_lut.TensorIndex.Progress.{Ends, read_index-Ends}
use block_lut.TensorIndex.RoundTrip.{read_index-write_entries}
use block_lut.TensorIndex.Convert.{Torch, convert_offload}
use block_lut.TensorIndex.Convert.Zeros.{IsBlank, convert_offload-IsBlank}

abbrev flags : Flags
flags = record {
  pinned_memory = 1;
  requires_grad = 0;
  device_index = ℤ.negsuc 0;
  device_type = ℤ.pos 0;
  layout = ℤ.pos 0;
}

-- 2 x 3 values of bf16 in one chunk, and their signs and mantissas.
abbrev chunked : Entry
chunked = record {
  id = 7;
  shape = ℤ.pos 2 ∷ ℤ.pos 3 ∷ [];
  size = 12;
  num_elements = 6;
  dtype_code = ℤ.pos 11;
  file_id = 0;
  num_chunks = ℤ.pos 1;
  exp_offsets = 300 ∷ [];
  compressed_sizes = 5 ∷ [];
  original_sizes = 6 ∷ [];
  sm_offset = 4096;
  sm_size = 6;
}

abbrev whole : Entry
whole = record {
  id = 65537;
  shape = ℤ.pos 4 ∷ [];
  size = 8;
  num_elements = 4;
  dtype_code = ℤ.pos 11;
  file_id = 1;
  num_chunks = ℤ.pos 0;
  exp_offsets = [];
  compressed_sizes = [];
  original_sizes = [];
  sm_offset = 8192;
  sm_size = 8;
}

chunked-IsWritable : IsWritable flags chunked
chunked-IsWritable = record {
  id_fits = omega arith;
  rank_fits = omega arith;
  shape_fits = (omega arith, (omega arith, tt));
  size_fits = omega arith;
  num_elements_fits = omega arith;
  pinned_memory_fits = omega arith;
  requires_grad_fits = omega arith;
  dtype_code_fits = omega arith;
  device_index_fits = omega arith;
  device_type_fits = omega arith;
  layout_fits = omega arith;
  file_id_fits = omega arith;
  chunks = refl;
  chunks_fit = omega arith;
  originals = refl;
  offsets_count_fits = omega arith;
  offsets_fit = (omega arith, tt);
  compressed_fit = (omega arith, tt);
  original_fit = (omega arith, tt);
  sm_offset_fits = omega arith;
  sm_size_fits = omega arith;
}

whole-IsWritable : IsWritable flags whole
whole-IsWritable = record {
  id_fits = omega arith;
  rank_fits = omega arith;
  shape_fits = (omega arith, tt);
  size_fits = omega arith;
  num_elements_fits = omega arith;
  pinned_memory_fits = omega arith;
  requires_grad_fits = omega arith;
  dtype_code_fits = omega arith;
  device_index_fits = omega arith;
  device_type_fits = omega arith;
  layout_fits = omega arith;
  file_id_fits = omega arith;
  chunks = refl;
  chunks_fit = omega arith;
  originals = refl;
  offsets_count_fits = omega arith;
  offsets_fit = tt;
  compressed_fit = tt;
  original_fit = tt;
  sm_offset_fits = omega arith;
  sm_size_fits = omega arith;
}

read_index-Ends_example : Ends (1 ∷ 2 ∷ 3 ∷ []) (read_index (1 ∷ 2 ∷ 3 ∷ []))
read_index-Ends_example = read_index-Ends (1 ∷ 2 ∷ 3 ∷ [])

read_index-write_entries_example :
    read_index (write_entries ((flags, chunked) ∷ (flags, whole) ∷ [])) ≡ ok (chunked ∷ whole ∷ [])
read_index-write_entries_example =
    read_index-write_entries ((flags, chunked) ∷ (flags, whole) ∷ [])
      (chunked-IsWritable, (whole-IsWritable, tt))

-- A torch that takes no tensor for a buffer.
abbrev strict : Torch ℕ
strict = record {
  frombuffer = λ full dtype. raise value_error;
  zero = 0;
  reshape = λ count shape. ok tt;
}

convert_offload-IsBlank_example : Gives (IsBlank strict) (
    convert_offload strict
      (write_entries ((flags, chunked) ∷ []))
      (1 ∷ 2 ∷ [])
      (("layers.0.experts.0.w1", 7) ∷ [])
      true)
convert_offload-IsBlank_example =
    convert_offload-IsBlank strict (λ full d. refl) (write_entries ((flags, chunked) ∷ []))
      (1 ∷ 2 ∷ []) (("layers.0.experts.0.w1", 7) ∷ []) true
