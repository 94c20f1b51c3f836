-- ===== src/Quantizer/Kmeans.antt =====
-- `_train_kmeans`: the sample, the first centroids, the rounds and the codebook it stores.
pub mod Stored
use block_lut.Prelude.{
  ℕ, zero, suc, ◌+◌, ◌-◌, min, some, List, [], ◌∷◌, ◌++◌, map, length, take, replicate, set_at, ltb,
  ◌==◌, if◌then◌else◌,
}
use block_lut.Outcome.{Result, ok, raise, index_error, value_error, ◌>>=◌}
use block_lut.Split.{ceil_div, chunks_from}
use block_lut.Quantizer.Numbers.{Numbers, gather}
use block_lut.Quantizer.State.{LutQuantizer}

-- `xs[assignments == i]`
unfoldable pub members : {A : Type 0} → ℕ → List ℕ → List A → List A
members i [] xs = []
members i (a ∷ assignments) [] = []
members i (a ∷ assignments) (x ∷ xs) =
    let rest = members i assignments xs in if a == i then x ∷ rest else rest

-- `range(0, n, chunk_size)` as the number of its steps: a step of 0 is a ValueError.
unfoldable pub chunk_count : ℕ → ℕ → Result ℕ
chunk_count n zero = raise value_error
chunk_count n (suc c) = ok (ceil_div n (suc c))

-- `self.lut_codebook = codebook`
unfoldable pub store_codebook : {A : Type 0} → LutQuantizer A → List A → LutQuantizer A
store_codebook q codebook = record q { lut_codebook = some codebook }

module _ {A : Type 0} (n : Numbers A) where
  -- `torch.abs(x - centroids).argmin()`
  unfoldable pub nearest : List A → A → ℕ
  nearest centroids x = n.argmin (map (λ c. n.abs (n.sub x c)) centroids)

  -- `argmin(dim=1)`: no centroids are an IndexError.
  unfoldable pub argmin_rows : List A → List A → Result (List ℕ)
  unfolding nearest
  argmin_rows [] xs = raise index_error
  argmin_rows (c ∷ centroids) xs = ok (map (nearest (c ∷ centroids)) xs)

  -- The loop over the chunks.
  unfoldable pub assign_chunks : List A → List (List A) → Result (List ℕ)
  unfolding argmin_rows
  assign_chunks centroids [] = ok []
  assign_chunks centroids (chunk ∷ chunks) = argmin_rows centroids chunk >>= λ assignments.
      assign_chunks centroids chunks >>= λ rest. ok (assignments ++ rest)

  unfoldable pub assign : List A → List A → Result (List ℕ)
  unfolding assign_chunks chunks_from chunk_count
  assign centroids train_data =
      let chunk_size = min 65536 (length train_data) in
      chunk_count (length train_data) chunk_size >>= λ rounds.
      assign_chunks centroids (chunks_from rounds 0 chunk_size train_data)

  -- A centroid without members stays.
  unfoldable pub update_centroid : ℕ → List A → List A → List A
  update_centroid i [] centroids = centroids
  update_centroid i (x ∷ xs) centroids = set_at centroids i (n.mean (x ∷ xs))

  -- The loop over `i`, for the `rounds` clusters from `i` on.
  unfoldable pub update_centroids : ℕ → ℕ → List ℕ → List A → List A → List A
  unfolding update_centroid members
  update_centroids zero i assignments train_data centroids = centroids
  update_centroids (suc rounds) i assignments train_data centroids =
      update_centroids rounds (i + 1) assignments train_data
        (update_centroid i (members i assignments train_data) centroids)

  unfoldable pub iterate : ℕ → ℕ → List A → List A → Result (List A)
  unfolding assign update_centroids
  iterate zero k train_data centroids = ok centroids
  iterate (suc n_iter) k train_data centroids = assign centroids train_data >>= λ assignments.
      iterate n_iter k train_data (update_centroids k 0 assignments train_data centroids)

  unfoldable pub sample : ℕ → ℕ → List A → Result (List A)
  unfolding gather
  sample draw max_samples xs =
      if ltb max_samples (length xs)
      then gather xs (take max_samples (n.randperm draw (length xs)))
      else ok xs

  unfoldable pub first_centroids : ℕ → ℕ → List A → Result (List A)
  unfolding gather
  first_centroids draw k train_data =
      let n_init = min k (length train_data) in
      gather train_data (take n_init (n.randperm draw (length train_data))) >>= λ centroids.
      ok (
        if ltb (length train_data) k then centroids ++ replicate (k - n_init) n.zero else centroids)

  -- The draws of the permutations are `draw` and the next one.
  unfoldable pub train_kmeans :
      LutQuantizer A → ℕ → List A → ℕ → ℕ → ℕ → Result (List A × LutQuantizer A)
  unfolding sample first_centroids iterate store_codebook
  train_kmeans q draw xs k n_iter max_samples = do
    train_data ← sample draw max_samples (map n.float xs)
    centroids ← first_centroids (draw + 1) k train_data
    trained ← iterate n_iter k train_data centroids
    let codebook = map n.bfloat16 (n.sort trained)
    ok (codebook, store_codebook q codebook)
