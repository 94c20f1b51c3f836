-- ===== src/Offload/Written.antt =====
-- What the engine's calls write, and how large its batches are.
use block_lut.Prelude.{
  ℕ, suc, ◌+◌, ◌<◌, ◌≤◌, ◌≡◌, refl, sym, ap, ◌∙◌, String, List, [], ◌∷◌, ◌++◌, length, All, arith,
  append-nil, append_assoc,
}
use block_lut.Dict.{Dict}
use block_lut.Offload.{Part, OffloadEvent, offload, batch_offload, lut_moe_batch_offload_to_disk}

pub All-append :
    {A : Type 0} (P : A → Type 0) (us vs : List A) → All P us → All P vs → All P (us ++ vs)
All-append P [] vs h k = k
All-append P (u ∷ us) vs h k = (h.0, All-append P us vs h.1 k)

module _ {T S : Type 0} where
  -- What the events write, in order.
  abbrev pub written : List (OffloadEvent T S) → List (Part T S)
  written [] = []
  written (offload p sparse ∷ events) = p ∷ written events
  written (batch_offload ps ∷ events) = ps ++ written events

  -- A batch is not empty and no larger than allowed.
  abbrev pub IsSmall : ℕ → OffloadEvent T S → Type 0
  IsSmall max_size (offload p sparse) = Unit
  IsSmall max_size (batch_offload ps) = (0 < length ps) × (length ps ≤ max_size)

  pub written-append :
      (us vs : List (OffloadEvent T S)) → written (us ++ vs) ≡ written us ++ written vs
  written-append [] vs = refl
  written-append (offload p sparse ∷ us) vs = ap (◌∷◌ p) (written-append us vs)
  written-append (batch_offload ps ∷ us) vs =
      ap (λ l. ps ++ l) (written-append us vs) ∙ sym (append_assoc ps (written us) (written vs))

  pub written-lut_moe_batch_offload_to_disk :
      (ps : List (Part T S)) (events : List (OffloadEvent T S))
      → written (lut_moe_batch_offload_to_disk ps events) ≡ written events ++ ps
  unfolding lut_moe_batch_offload_to_disk
  written-lut_moe_batch_offload_to_disk [] events = sym (append-nil (written events))
  written-lut_moe_batch_offload_to_disk (p ∷ ps) events =
      written-append events (batch_offload (p ∷ ps) ∷ [])
      ∙ ap (λ l. written events ++ l) (append-nil (p ∷ ps))

  pub All-lut_moe_batch_offload_to_disk :
      (m : ℕ) (ps : List (Part T S)) (events : List (OffloadEvent T S))
      → length ps ≤ m
      → All (IsSmall m) events
      → All (IsSmall m) (lut_moe_batch_offload_to_disk ps events)
  unfolding lut_moe_batch_offload_to_disk
  All-lut_moe_batch_offload_to_disk m [] events l h = h
  All-lut_moe_batch_offload_to_disk m (p ∷ ps) events l h =
      All-append (IsSmall m) events (batch_offload (p ∷ ps) ∷ []) h ((omega arith, l), tt)

  module _ (to_dtype : T → T) (parts : T → S) where
    -- The tensors with their parts, numbered from `first` on, and the names with their numbers.
    abbrev pub numbered_parts : ℕ → Dict String T → List (Part T S)
    numbered_parts first [] = []
    numbered_parts first ((k, v) ∷ rest) =
        record { tensor_id = first; tensor = to_dtype v; parts = parts (to_dtype v) }
        ∷ numbered_parts (suc first) rest

  pub numbered_parts-append :
      (to_dtype : T → T) (parts : T → S) (first : ℕ) (us vs : Dict String T)
      → numbered_parts to_dtype parts first (us ++ vs)
        ≡ numbered_parts to_dtype parts first us
          ++ numbered_parts to_dtype parts (length us + first) vs
  numbered_parts-append to_dtype parts first [] vs =
      ap (λ n. numbered_parts to_dtype parts n vs) (omega arith)
  numbered_parts-append to_dtype parts first ((k, v) ∷ us) vs =
      ap (◌∷◌ (record { tensor_id = first; tensor = to_dtype v; parts = parts (to_dtype v) })) (
        numbered_parts-append to_dtype parts (suc first) us vs
        ∙ ap
            (λ n.
              numbered_parts to_dtype parts (suc first) us ++ numbered_parts to_dtype parts n vs)
            (omega arith))
