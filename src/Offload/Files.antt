-- ===== src/Offload/Files.antt =====
-- All checkpoint files of a model, from a map without names on.
use native.Mathlib.Nat.{div-eq-sub-div}
use block_lut.Prelude.{
  ℕ, suc, ◌-◌, ◌/◌, ◌<◌, ◌≤◌, ◌≡◌, refl, sym, ap, ◌∙◌, subst, Bool, false, String, List, [], ◌∷◌,
  ◌++◌, All, arith, append-nil, append_assoc, drop_all,
}
use block_lut.Outcome.{Result, ok}
use block_lut.Dict.{Dict}
use block_lut.Offload.{
  Loader, start, max_batch_size, load_tensor, load_tensors, load_files, flush_rest, add_tensor,
  flush_full,
}
use block_lut.Offload.Names.{numbered_names, AreNew}
use block_lut.Offload.Written.{written, IsSmall, numbered_parts}
use block_lut.Offload.Batches.{
  IsTracking, flush_rest-IsTracking, flush_full-IsTracking, add_tensor-IsTracking,
}

-- The state dicts, one after the other.
abbrev pub all_tensors : {T : Type 0} → List (Dict String T) → Dict String T
all_tensors [] = []
all_tensors (file ∷ files) = file ++ all_tensors files

module _ {T S : Type 0} (to_dtype : T → T) (parts : T → S) (split : T → Result S)
    (already : ℕ → Bool) where
  -- The cast and the split of every tensor of a file return its parts.
  abbrev pub Splits : Dict String T → Type 0
  Splits file = All (λ q. split (to_dtype (q.1)) ≡ ok (parts (to_dtype (q.1)))) file

  module _ (fresh : (i : ℕ) → already i ≡ false) where
    load_tensors-IsTracking :
        (n : ℕ) (file rest done : Dict String T) (s : Loader T S)
        → Splits file
        → AreNew done (file ++ rest)
        → IsTracking to_dtype parts (suc n) n done s
        → (s' : Loader T S) × (load_tensors to_dtype split already (suc n) file s ≡ ok s')
          × IsTracking to_dtype parts (suc n) n (done ++ file) s'
          × AreNew (done ++ file) rest
    unfolding load_tensors load_tensor
    load_tensors-IsTracking n [] rest done s works new t =
        (s, refl, rw append-nil t, rw append-nil new)
    load_tensors-IsTracking n ((k, v) ∷ file) rest done s (splits, works) new t =
        let s1 = add_tensor already k (to_dtype v) (parts (to_dtype v)) s in
        let t1 =
          add_tensor-IsTracking to_dtype parts (suc n) done s k v new.0 n (omega arith) already
            fresh t in
        let t2 =
          flush_full-IsTracking to_dtype parts (suc n) (done ++ ((k, v) ∷ [])) s1 n refl t1 in
        let (s', ran, t', new') =
          load_tensors-IsTracking n file rest (done ++ ((k, v) ∷ [])) (flush_full (suc n) s1) works
            new.1 t2 in
        let same = append_assoc done ((k, v) ∷ []) file in
        (
          s',
          rw (load_tensors, splits) ran,
          subst (λ d. IsTracking to_dtype parts (suc n) n d s') same t',
          subst (λ d. AreNew d rest) same new',
        )

    load_files-IsTracking :
        (threads chunks n : ℕ) (files : List (Dict String T)) (done : Dict String T)
        (s : Loader T S)
        → max_batch_size threads chunks ≡ ok (suc n)
        → All Splits files
        → AreNew done (all_tensors files)
        → IsTracking to_dtype parts (suc n) 0 done s
        → (s' : Loader T S) × (load_files to_dtype split already threads chunks files s ≡ ok s')
          × IsTracking to_dtype parts (suc n) 0 (done ++ all_tensors files) s'
    unfolding load_files
    load_files-IsTracking threads chunks n [] done s size works new t = (s, refl, rw append-nil t)
    load_files-IsTracking threads chunks n (file ∷ files) done s size (splits, works) new t =
        let empty = drop_all 0 s.batch t.room in
        let (s1, ran, t1, new1) =
          load_tensors-IsTracking n file (all_tensors files) done
            (record s { batch = []; batch_size = 0 }) splits new
            (record {
              counted = t.counted;
              named = t.named;
              moved = sym (ap (λ b. written s.events ++ b) empty) ∙ t.moved;
              sized = refl;
              small = t.small;
              room = omega arith;
            }) in
        let t2 =
          flush_rest-IsTracking to_dtype parts (suc n) (done ++ file) s1 n (omega arith) t1 in
        let (s', ran', t') =
          load_files-IsTracking threads chunks n files (done ++ file) (flush_rest s1) size works
            new1 t2 in
        (
          s',
          rw (load_files, size, ran) ran',
          subst (λ d. IsTracking to_dtype parts (suc n) 0 d s')
              (append_assoc done file (all_tensors files)) t',
        )

-- Loading the checkpoint files of a model of which no name stands twice, and whose tensors can
-- all be split (with BLOCKLUT and NESTEDLUT only those whose size is a multiple of 4 can), with at
-- least as many compute threads as file chunks, into an index that held nothing: it succeeds;
-- every tensor is written once, in the order of the files, under the next free id and with its own
-- parts; the map gives each name the id of its tensor; no batch is empty or larger than threads
-- divided by chunks; and no tensor is left in a batch.
pub load_files-written :
    {T S : Type 0} (to_dtype : T → T) (parts : T → S) (split : T → Result S) (already : ℕ → Bool)
    (threads chunks : ℕ) (files : List (Dict String T))
    → 0 < chunks
    → chunks ≤ threads
    → All (λ file. All (λ q. split (to_dtype (q.1)) ≡ ok (parts (to_dtype (q.1)))) file) files
    → ((i : ℕ) → already i ≡ false)
    → AreNew [] (all_tensors files)
    → (s : Loader T S) × (load_files to_dtype split already threads chunks files start ≡ ok s)
      × (written s.events ≡ numbered_parts to_dtype parts 0 (all_tensors files))
      × (s.name_id_map ≡ numbered_names 0 (all_tensors files))
      × All (IsSmall (threads / chunks)) s.events
      × (s.batch ≡ [])
unfolding max_batch_size start
load_files-written to_dtype parts split already threads chunks files h l works fresh new =
    let n = threads / chunks - 1 in
    let size : threads / chunks ≡ suc n = omega (arith, div-eq-sub-div h l) in
    let (s, ran, t) =
      load_files-IsTracking to_dtype parts split already fresh threads chunks n files [] start
        (ground (arith, size)) works new
        (record {
          counted = refl;
          named = refl;
          moved = refl;
          sized = refl;
          small = tt;
          room = omega arith;
        }) in
    let empty = drop_all 0 s.batch t.room in
    (
      s,
      ran,
      sym (append-nil (written s.events)) ∙ sym (ap (λ b. written s.events ++ b) empty) ∙ t.moved,
      t.named,
      subst (λ m. All (IsSmall m) s.events) (sym size) t.small,
      empty,
    )
