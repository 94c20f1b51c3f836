-- ===== src/TensorIndex.antt =====
-- `read_index` of vllm_lut/read_offload.py: the index of the offloaded tensors, from its bytes.
-- The position in `data` is what is left of it.
pub mod Writer
pub mod RoundTrip
pub mod Progress
pub mod Convert
use block_lut.Prelude.{
  ℕ, zero, suc, ◌+◌, ◌-◌, ◌*◌, ◌/◌, ◌^◌, List, [], ◌∷◌, length, take, drop, ltb, leb, if◌then◌else◌,
}
use block_lut.Outcome.{Result, ok, raise, struct_error, runtime_error, ◌>>=◌}

-- Signed integers, by the names of the library.
pub data ℤ : Type 0 where
  pos negsuc : ℕ → ℤ

-- Little-endian.
unfoldable pub le_value : List ℕ → ℕ
le_value [] = 0
le_value (b ∷ bytes) = b + 256 * le_value bytes

-- Two's complement of `width` bytes.
unfoldable pub signed : ℕ → ℕ → ℤ
signed width u = if ltb u (256 ^ width / 2) then ℤ.pos u else ℤ.negsuc (256 ^ width - 1 - u)

-- How often `range(n)` runs.
unfoldable pub times : ℤ → ℕ
times (ℤ.pos n) = n
times (ℤ.negsuc n) = 0

-- `struct.unpack_from` of `width` bytes, with `pos += width`: too few bytes are a struct.error.
unfoldable pub unpack : ℕ → List ℕ → Result (ℕ × List ℕ)
unfolding le_value
unpack width bytes =
    if leb width (length bytes)
    then ok (le_value (take width bytes), drop width bytes)
    else raise struct_error

unfoldable pub unpack_signed : ℕ → List ℕ → Result (ℤ × List ℕ)
unfolding unpack signed
unpack_signed width bytes = unpack width bytes >>= λ r. ok (signed width (r.0), r.1)

-- The loops that append what they unpack.
unfoldable pub unpack_many : ℕ → List ℕ → Result (List ℕ × List ℕ)
unfolding unpack
unpack_many zero bytes = ok ([], bytes)
unpack_many (suc count) bytes =
    unpack 8 bytes >>= λ r. unpack_many count (r.1) >>= λ rest. ok ((r.0) ∷ (rest.0), rest.1)

unfoldable pub unpack_dims : ℕ → List ℕ → Result (List ℤ × List ℕ)
unfolding unpack_signed
unpack_dims zero bytes = ok ([], bytes)
unpack_dims (suc count) bytes =
    unpack_signed 8 bytes >>= λ r. unpack_dims count (r.1) >>= λ rest. ok ((r.0) ∷ (rest.0), rest.1)

pub record Entry : Type 0 where
  pub id : ℕ
  pub shape : List ℤ
  pub size : ℕ
  pub num_elements : ℕ
  pub dtype_code : ℤ
  pub file_id : ℕ
  pub num_chunks : ℤ
  pub exp_offsets : List ℕ
  pub compressed_sizes : List ℕ
  pub original_sizes : List ℕ
  pub sm_offset : ℕ
  pub sm_size : ℕ

-- The body of the loop. The flags, the device and the layout are read and not kept.
unfoldable pub read_entry : List ℕ → Result (Entry × List ℕ)
unfolding unpack unpack_signed unpack_many unpack_dims times
read_entry bytes = do
  (id, p1) ← unpack 4 bytes
  (shape_size, p2) ← unpack_signed 8 p1
  (shape, p3) ← unpack_dims (times shape_size) p2
  (size, p4) ← unpack 8 p3
  (num_elements, p5) ← unpack 8 p4
  (pinned, p6) ← unpack 1 p5
  (requires_grad, p7) ← unpack 1 p6
  (dtype_code, p8) ← unpack_signed 1 p7
  (device_index, p9) ← unpack_signed 1 p8
  (device_type, p10) ← unpack_signed 1 p9
  (layout, p11) ← unpack_signed 1 p10
  (file_id, p12) ← unpack 4 p11
  (num_chunks, p13) ← unpack_signed 4 p12
  (exp_size, p14) ← unpack 4 p13
  (exp_offsets, p15) ← unpack_many exp_size p14
  (compressed_sizes, p16) ← unpack_many (times num_chunks) p15
  (original_sizes, p17) ← unpack_many (times num_chunks) p16
  (sm_offset, p18) ← unpack 8 p17
  (sm_size, p19) ← unpack 8 p18
  ok (
    record {
      id = id;
      shape = shape;
      size = size;
      num_elements = num_elements;
      dtype_code = dtype_code;
      file_id = file_id;
      num_chunks = num_chunks;
      exp_offsets = exp_offsets;
      compressed_sizes = compressed_sizes;
      original_sizes = original_sizes;
      sm_offset = sm_offset;
      sm_size = sm_size;
    },
    p19,
  )

-- `while pos < len(data)`. The fuel bounds the entries; the file's length is enough of it.
unfoldable pub read_entries : ℕ → List ℕ → Result (List Entry)
unfolding read_entry
read_entries fuel [] = ok []
read_entries zero (b ∷ bytes) = raise runtime_error
read_entries (suc fuel) (b ∷ bytes) =
    read_entry (b ∷ bytes) >>= λ r. read_entries fuel (r.1) >>= λ rest. ok ((r.0) ∷ rest)

unfoldable pub read_index : List ℕ → Result (List Entry)
unfolding read_entries
read_index bytes = read_entries (length bytes) bytes
