-- ===== src/Offload/Batches.antt =====
-- Loading checkpoint files: which tensors reach the disk, in which order and in which batches.
use block_lut.Prelude.{
  ℕ, suc, ◌+◌, ◌≤◌, ◌≡◌, refl, sym, ap, ◌∙◌, Bool, true, false, String, none, List, [], ◌∷◌, ◌++◌,
  length, All, arith, ◌==◌, ltb, Bool-cases, inl, inr, append-nil, append_assoc, length-append,
  string_discrete,
}
use block_lut.Dict
use block_lut.Dict.{Dict}
use block_lut.Offload.{
  Part, offload, Loader, is_sparse, generate_param_id, lut_moe_offload_to_disk, flush, flush_rest,
  add_tensor, flush_full,
}
use block_lut.Offload.Names.{put_new, numbered_names, numbered_names-append, get-numbered_names}
use block_lut.Offload.Written.{
  written, IsSmall, All-append, written-append, numbered_parts, numbered_parts-append,
  written-lut_moe_batch_offload_to_disk, All-lut_moe_batch_offload_to_disk,
}

module _ {T S : Type 0} (to_dtype : T → T) (parts : T → S) (m : ℕ) where
  -- What was loaded is written or in the batch, in order; the batch is of at most `b` tensors.
  pub record IsTracking (b : ℕ) (done : Dict String T) (s : Loader T S) : Type 0 where
    pub counted : s.param_id ≡ length done
    pub named : s.name_id_map ≡ numbered_names 0 done
    pub moved : written s.events ++ s.batch ≡ numbered_parts to_dtype parts 0 done
    pub sized : s.batch_size ≡ length s.batch
    pub small : All (IsSmall m) s.events
    pub room : length s.batch ≤ b

  module _ (done : Dict String T) (s : Loader T S) where
    relax : (a b : ℕ) → a ≤ b → IsTracking a done s → IsTracking b done s
    relax a b l t = record {
      counted = t.counted;
      named = t.named;
      moved = t.moved;
      sized = t.sized;
      small = t.small;
      room = omega (arith, t.room);
    }

  module _ (done : Dict String T) (s : Loader T S) where
    pub flush-IsTracking : (b : ℕ) → b ≤ m → IsTracking b done s → IsTracking 0 done (flush s)
    unfolding flush
    flush-IsTracking b l t = record {
      counted = t.counted;
      named = t.named;
      moved = append-nil _ ∙ written-lut_moe_batch_offload_to_disk s.batch s.events ∙ t.moved;
      sized = refl;
      small = All-lut_moe_batch_offload_to_disk m s.batch s.events (omega (arith, t.room)) t.small;
      room = omega arith;
    }

    pub flush_rest-IsTracking :
        (b : ℕ) → b ≤ m → IsTracking b done s → IsTracking 0 done (flush_rest s)
    unfolding flush_rest
    flush_rest-IsTracking b l t = elim (Bool-cases (ltb 0 (length s.batch))) [
      | inl e ↦ rw (flush_rest, e) (flush-IsTracking b l t)
      | inr e ↦
          rw (flush_rest, e)
            (record {
              counted = t.counted;
              named = t.named;
              moved = t.moved;
              sized = t.sized;
              small = t.small;
              room = ground arith;
            })
    ]

    pub flush_full-IsTracking :
        (n : ℕ) → m ≡ suc n → IsTracking m done s → IsTracking n done (flush_full m s)
    unfolding flush_full
    flush_full-IsTracking n h t = elim (Bool-cases (s.batch_size == m)) [
      | inl e ↦
          rw (flush_full, e)
            (relax done (flush s) 0 n (omega arith) (flush-IsTracking m (omega arith) t))
      | inr e ↦
          rw (flush_full, e)
            (record {
              counted = t.counted;
              named = t.named;
              moved = t.moved;
              sized = t.sized;
              small = t.small;
              room = ground (arith, t.sized, t.room);
            })
    ]

    module _ (k : String) (v : T) (new : Dict.get string_discrete k done ≡ none) where
      from_zero : s.param_id ≡ length done → s.param_id ≡ length done + 0
      from_zero counted = omega (arith, counted)

      named_more :
          s.name_id_map ≡ numbered_names 0 done
          → s.param_id ≡ length done
          → Dict.put string_discrete k s.param_id s.name_id_map
            ≡ numbered_names 0 (done ++ ((k, v) ∷ []))
      named_more named counted =
          ap (Dict.put string_discrete k s.param_id) named
          ∙ put_new string_discrete k s.param_id (numbered_names 0 done)
              (get-numbered_names k 0 done new)
          ∙ ap (λ i. numbered_names 0 done ++ ((k, i) ∷ [])) (from_zero counted)
          ∙ sym (numbered_names-append 0 done ((k, v) ∷ []))

      moved_more :
          (ps : List (Part T S))
          → ps ≡ numbered_parts to_dtype parts 0 done
          → s.param_id ≡ length done
          → ps
              ++ (record { tensor_id = s.param_id; tensor = to_dtype v; parts = parts (to_dtype v) }
                  ∷ [])
            ≡ numbered_parts to_dtype parts 0 (done ++ ((k, v) ∷ []))
      moved_more ps moved counted =
          ap
            (λ l.
              l
              ++ (record { tensor_id = s.param_id; tensor = to_dtype v; parts = parts (to_dtype v) }
                  ∷ []))
            moved
          ∙ ap
              (λ i.
                numbered_parts to_dtype parts 0 done
                ++ (record { tensor_id = i; tensor = to_dtype v; parts = parts (to_dtype v) } ∷ []))
              (from_zero counted)
          ∙ sym (numbered_parts-append to_dtype parts 0 done ((k, v) ∷ []))

      sparse-IsTracking :
          (b : ℕ)
          → is_sparse k ≡ true
          → (already : ℕ → Bool) → IsTracking b done s
          → IsTracking
              (suc b)
              (done ++ ((k, v) ∷ []))
              (add_tensor already k (to_dtype v) (parts (to_dtype v)) s)
      unfolding add_tensor generate_param_id
      sparse-IsTracking b sparse already t =
          rw (add_tensor, sparse)
            (record {
              counted = omega (arith, t.counted, length-append done ((k, v) ∷ []));
              named = named_more t.named t.counted;
              moved =
                  sym (append_assoc (written s.events) s.batch _) ∙ moved_more _ t.moved t.counted;
              sized = omega (arith, t.sized, length-append s.batch (_ ∷ []));
              small = t.small;
              room = omega (arith, t.room, length-append s.batch (_ ∷ []));
            })

      none_left : (ps : List (Part T S)) → length ps ≤ 0 → ps ≡ []
      none_left [] h = refl
      none_left (p ∷ ps) h = absurd (omega arith)

      dense-IsTracking :
          (already : ℕ → Bool)
          → ((i : ℕ) → already i ≡ false)
          → (sparse : Bool) → IsTracking 0 done s
          → IsTracking 0
              (done ++ ((k, v) ∷ []))
              (lut_moe_offload_to_disk already k (to_dtype v) (parts (to_dtype v)) sparse s)
      unfolding lut_moe_offload_to_disk generate_param_id
      dense-IsTracking already fresh sparse t =
          let empty = none_left s.batch t.room in
          rw (lut_moe_offload_to_disk, fresh s.param_id)
            (record {
              counted = omega (arith, t.counted, length-append done ((k, v) ∷ []));
              named = named_more t.named t.counted;
              moved =
                  ap
                    (λ batch.
                      written (
                        s.events
                        ++ (offload
                              (record {
                                tensor_id = s.param_id;
                                tensor = to_dtype v;
                                parts = parts (to_dtype v);
                              })
                              sparse
                            ∷ []))
                      ++ batch)
                    empty
                  ∙ append-nil _
                  ∙ written-append s.events _
                  ∙ moved_more (written s.events)
                      (sym (append-nil (written s.events))
                        ∙ sym (ap (λ batch. written s.events ++ batch) empty)
                        ∙ t.moved)
                      t.counted;
              sized = t.sized;
              small = All-append (IsSmall m) s.events (_ ∷ []) t.small (tt, tt);
              room = t.room;
            })

  pub add_tensor-IsTracking :
      (done : Dict String T) (s : Loader T S) (k : String) (v : T)
      → Dict.get string_discrete k done ≡ none
      → (b : ℕ) → b ≤ m
      → (already : ℕ → Bool) → ((i : ℕ) → already i ≡ false)
      → IsTracking b done s
      → IsTracking
          (suc b)
          (done ++ ((k, v) ∷ []))
          (add_tensor already k (to_dtype v) (parts (to_dtype v)) s)
  unfolding add_tensor
  add_tensor-IsTracking done s k v new b l already fresh t = elim (Bool-cases (is_sparse k)) [
    | inl e ↦ sparse-IsTracking done s k v new b e already t
    | inr e ↦
        rw (add_tensor, e)
          (relax (done ++ ((k, v) ∷ [])) _ 0 (suc b) (omega arith) (
            dense-IsTracking done (flush_rest s) k v new already fresh false
              (flush_rest-IsTracking done s b l t)))
  ]
