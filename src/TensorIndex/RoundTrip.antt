-- ===== src/TensorIndex/RoundTrip.antt =====
-- `read_index` reads back what the reference writer of its format has written.
use native.Mathlib.Nat.{pow-suc}
use block_lut.Prelude.{
  ℕ, zero, suc, ◌+◌, ◌-◌, ◌/◌, ◌^◌, ◌≤◌, ◌≡◌, refl, subst, sym, ◌∙◌, List, [], ◌∷◌, map, length,
  take, drop, All, ltb, leb, lt→ltb, true, false, arith,
}
use block_lut.Outcome.{ok}
use block_lut.TensorIndex.{
  ℤ, Entry, le_value, signed, times, unpack, unpack_signed, unpack_many, unpack_dims, read_entry,
  read_entries, read_index,
}
use block_lut.TensorIndex.Progress.{Takes, read_entry-Takes}
use block_lut.TensorIndex.Writer.{
  Flags, put, put_signed, put_all, put_dims, put_counted, put_entry, write_entries, Fits,
  FitsSigned, IsWritable,
}

length-put : (w n : ℕ) (rest : List ℕ) → length (put w n rest) ≡ w + length rest
unfolding put
length-put zero n rest = omega arith
length-put (suc w) n rest = omega (arith, length-put w (n / 256) rest)

drop-put : (w n : ℕ) (rest : List ℕ) → drop w (put w n rest) ≡ rest
unfolding put
drop-put zero n rest = refl
drop-put (suc w) n rest = drop-put w (n / 256) rest

le_value-put : (w n : ℕ) (rest : List ℕ) → Fits w n → le_value (take w (put w n rest)) ≡ n
unfolding put le_value
le_value-put zero n rest h = omega arith
le_value-put (suc w) n rest h =
    omega (arith, le_value-put w (n / 256) rest (grind (arith, pow-suc 256 w)))

unpack-put : (w n : ℕ) (rest : List ℕ) → Fits w n → unpack w (put w n rest) ≡ ok (n, rest)
unfolding unpack
unpack-put w n rest h =
    let enough : leb w (length (put w n rest)) ≡ true = ground (arith, length-put w n rest) in
    rw (enough, le_value-put w n rest h, drop-put w n rest) refl

unpack_signed-put_signed :
    (w : ℕ) (z : ℤ) (rest : List ℕ)
    → FitsSigned w z
    → unpack_signed w (put_signed w z rest) ≡ ok (z, rest)
unfolding unpack_signed put_signed signed
unpack_signed-put_signed w (ℤ.pos n) rest h =
    let low : ltb n (256 ^ w / 2) ≡ true = lt→ltb n _ h in
    rw (unpack-put w n rest (omega arith), low) refl
unpack_signed-put_signed w (ℤ.negsuc n) rest h =
    let high : ltb (256 ^ w - 1 - n) (256 ^ w / 2) ≡ false = ground arith in
    let back : 256 ^ w - 1 - (256 ^ w - 1 - n) ≡ n = omega arith in
    rw (unpack-put w (256 ^ w - 1 - n) rest (omega arith), high, back) refl

unpack_many-put_all :
    (ns rest : List ℕ) → All (Fits 8) ns → unpack_many (length ns) (put_all ns rest) ≡ ok (ns, rest)
unfolding unpack_many put_all
unpack_many-put_all [] rest h = refl
unpack_many-put_all (n ∷ ns) rest (h, hs) =
    rw (unpack-put 8 n (put_all ns rest) h, unpack_many-put_all ns rest hs) refl

unpack_dims-put_dims :
    (dims : List ℤ) (rest : List ℕ)
    → All (FitsSigned 8) dims
    → unpack_dims (length dims) (put_dims dims rest) ≡ ok (dims, rest)
unfolding unpack_dims put_dims
unpack_dims-put_dims [] rest h = refl
unpack_dims-put_dims (d ∷ dims) rest (h, hs) =
    rw (unpack_signed-put_signed 8 d (put_dims dims rest) h, unpack_dims-put_dims dims rest hs) refl

-- With the count that another field gives.
unpack_sizes :
    (ns rest : List ℕ) (z : ℤ)
    → times z ≡ length ns
    → All (Fits 8) ns
    → unpack_many (times z) (put_all ns rest) ≡ ok (ns, rest)
unpack_sizes ns rest z count h = rw count (unpack_many-put_all ns rest h)

read_entry-put_entry :
    (f : Flags) (e : Entry) (rest : List ℕ)
    → IsWritable f e
    → read_entry (put_entry put_all f e rest) ≡ ok (e, rest)
unfolding read_entry put_entry put_counted times
read_entry-put_entry f e rest w =
    let chunks : times e.num_chunks ≡ length e.compressed_sizes = rw w.chunks refl in
    rw
      (
        unpack-put 4 e.id _ w.id_fits,
        unpack_signed-put_signed 8 (ℤ.pos (length e.shape)) _ w.rank_fits,
        unpack_dims-put_dims e.shape _ w.shape_fits,
        unpack-put 8 e.size _ w.size_fits,
        unpack-put 8 e.num_elements _ w.num_elements_fits,
        unpack-put 1 f.pinned_memory _ w.pinned_memory_fits,
        unpack-put 1 f.requires_grad _ w.requires_grad_fits,
        unpack_signed-put_signed 1 e.dtype_code _ w.dtype_code_fits,
        unpack_signed-put_signed 1 f.device_index _ w.device_index_fits,
        unpack_signed-put_signed 1 f.device_type _ w.device_type_fits,
        unpack_signed-put_signed 1 f.layout _ w.layout_fits,
        unpack-put 4 e.file_id _ w.file_id_fits,
        unpack_signed-put_signed 4 e.num_chunks _ (rw w.chunks w.chunks_fit),
        unpack-put 4 (length e.exp_offsets) _ w.offsets_count_fits,
        unpack_many-put_all e.exp_offsets _ w.offsets_fit,
        unpack_sizes e.compressed_sizes _ e.num_chunks chunks w.compressed_fit,
        unpack_sizes e.original_sizes _ e.num_chunks (chunks ∙ sym w.originals) w.original_fit,
        unpack-put 8 e.sm_offset _ w.sm_offset_fits,
        unpack-put 8 e.sm_size _ w.sm_size_fits,
      )
      refl

-- An entry and what follows it.
read_entries_step :
    (fuel : ℕ) (bytes rest : List ℕ) (e : Entry) (es : List Entry)
    → read_entry bytes ≡ ok (e, rest)
    → length bytes ≤ fuel
    → ((k : ℕ) → length rest ≤ k → read_entries k rest ≡ ok es)
    → read_entries fuel bytes ≡ ok (e ∷ es)
unfolding read_entries
read_entries_step fuel [] rest e es runs h next =
    let taken : length rest + 62 ≤ 0 = subst (Takes 62 []) runs (read_entry-Takes []) in
    absurd (omega arith)
read_entries_step zero (b ∷ bytes) rest e es runs h next = absurd (omega arith)
read_entries_step (suc fuel) (b ∷ bytes) rest e es runs h next =
    let taken : length rest + 62 ≤ length (b ∷ bytes) =
      subst (Takes 62 (b ∷ bytes)) runs (read_entry-Takes (b ∷ bytes)) in
    rw (runs, next fuel (omega arith)) refl

read_entries-write_entries :
    (fuel : ℕ) (entries : List (Flags × Entry))
    → length (write_entries entries) ≤ fuel
    → All (λ w. IsWritable (w.0) (w.1)) entries
    → read_entries fuel (write_entries entries) ≡ ok (map (λ w. w.1) entries)
unfolding read_entries write_entries
read_entries-write_entries zero [] h w = refl
read_entries-write_entries (suc fuel) [] h w = refl
read_entries-write_entries fuel ((f, e) ∷ entries) h (w, ws) =
    read_entries_step fuel (put_entry put_all f e (write_entries entries)) (write_entries entries) e
      (map (λ w. w.1) entries) (read_entry-put_entry f e (write_entries entries) w) h
      (λ k l. read_entries-write_entries k entries l ws)

-- From the bytes that the reference writer makes of a list of entries, each with numbers that fit
-- their fields and as many chunk sizes as it says, `read_index` returns exactly these entries.
pub read_index-write_entries :
    (entries : List (Flags × Entry))
    → All (λ w. IsWritable (w.0) (w.1)) entries
    → read_index (write_entries entries) ≡ ok (map (λ w. w.1) entries)
unfolding read_index
read_index-write_entries entries w =
    read_entries-write_entries (length (write_entries entries)) entries (omega arith) w
