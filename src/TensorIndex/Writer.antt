-- ===== src/TensorIndex/Writer.antt =====
-- Writers of the index: `operator<<` of csrc/base/lut_moe_tensor_index.cpp, and a reference writer
-- of the format that `read_index` reads, which differs in the sizes of the chunks.
use block_lut.Prelude.{ℕ, zero, suc, ◌-◌, ◌/◌, ◌%◌, ◌^◌, ◌<◌, ◌≡◌, List, [], ◌∷◌, length, All}
use block_lut.TensorIndex.{ℤ, Entry}

-- The `width` bytes of a number, little-endian, before `rest`.
unfoldable pub put : ℕ → ℕ → List ℕ → List ℕ
put zero n rest = rest
put (suc width) n rest = n % 256 ∷ put width (n / 256) rest

unfoldable pub put_signed : ℕ → ℤ → List ℕ → List ℕ
unfolding put
put_signed width (ℤ.pos n) rest = put width n rest
put_signed width (ℤ.negsuc n) rest = put width (256 ^ width - 1 - n) rest

-- The numbers of a vector, 8 bytes each.
unfoldable pub put_all : List ℕ → List ℕ → List ℕ
unfolding put
put_all [] rest = rest
put_all (n ∷ ns) rest = put 8 n (put_all ns rest)

unfoldable pub put_dims : List ℤ → List ℕ → List ℕ
unfolding put_signed
put_dims [] rest = rest
put_dims (d ∷ dims) rest = put_signed 8 d (put_dims dims rest)

-- A vector after its length.
unfoldable pub put_counted : List ℕ → List ℕ → List ℕ
unfolding put put_all
put_counted ns rest = put 4 (length ns) (put_all ns rest)

-- The fields of `TensorOptions` that the reader does not keep.
pub record Flags : Type 0 where
  pub pinned_memory : ℕ
  pub requires_grad : ℕ
  pub device_index : ℤ
  pub device_type : ℤ
  pub layout : ℤ

-- The record of a tensor, where `sizes` writes a vector of chunk sizes.
unfoldable pub put_entry : (List ℕ → List ℕ → List ℕ) → Flags → Entry → List ℕ → List ℕ
unfolding put put_signed put_all put_dims put_counted
put_entry sizes f e rest = put 4 e.id (
    put 8 (length e.shape) (
      put_dims e.shape (
        put 8 e.size (
          put 8 e.num_elements (
            put 1 f.pinned_memory (
              put 1 f.requires_grad (
                put_signed 1 e.dtype_code (
                  put_signed 1 f.device_index (
                    put_signed 1 f.device_type (
                      put_signed 1 f.layout (
                        put 4 e.file_id (
                          put_signed 4 e.num_chunks (
                            put_counted e.exp_offsets (
                              sizes e.compressed_sizes (
                                sizes e.original_sizes
                                  (put 8 e.sm_offset (put 8 e.sm_size rest)))))))))))))))))

-- `operator<<` writes the number of chunk sizes before them.
unfoldable pub write_meta : Flags → Entry → List ℕ → List ℕ
unfolding put_entry put_counted
write_meta = put_entry put_counted

-- The reader expects the sizes alone.
unfoldable pub write_entries : List (Flags × Entry) → List ℕ
unfolding put_entry put_all
write_entries [] = []
write_entries ((f, e) ∷ entries) = put_entry put_all f e (write_entries entries)

-- What fits into `width` bytes.
abbrev pub Fits : ℕ → ℕ → Type 0
Fits width n = n < 256 ^ width

abbrev pub FitsSigned : ℕ → ℤ → Type 0
FitsSigned width (ℤ.pos n) = n < 256 ^ width / 2
FitsSigned width (ℤ.negsuc n) = n < 256 ^ width / 2

-- An entry whose numbers fit into their fields, with as many chunk sizes as it says.
pub record IsWritable (f : Flags) (e : Entry) : Type 0 where
  pub id_fits : Fits 4 e.id
  pub rank_fits : length e.shape < 256 ^ 8 / 2
  pub shape_fits : All (FitsSigned 8) e.shape
  pub size_fits : Fits 8 e.size
  pub num_elements_fits : Fits 8 e.num_elements
  pub pinned_memory_fits : Fits 1 f.pinned_memory
  pub requires_grad_fits : Fits 1 f.requires_grad
  pub dtype_code_fits : FitsSigned 1 e.dtype_code
  pub device_index_fits : FitsSigned 1 f.device_index
  pub device_type_fits : FitsSigned 1 f.device_type
  pub layout_fits : FitsSigned 1 f.layout
  pub file_id_fits : Fits 4 e.file_id
  pub chunks : e.num_chunks ≡ ℤ.pos (length e.compressed_sizes)
  pub chunks_fit : length e.compressed_sizes < 256 ^ 4 / 2
  pub originals : length e.original_sizes ≡ length e.compressed_sizes
  pub offsets_count_fits : Fits 4 (length e.exp_offsets)
  pub offsets_fit : All (Fits 8) e.exp_offsets
  pub compressed_fit : All (Fits 8) e.compressed_sizes
  pub original_fit : All (Fits 8) e.original_sizes
  pub sm_offset_fits : Fits 8 e.sm_offset
  pub sm_size_fits : Fits 8 e.sm_size
