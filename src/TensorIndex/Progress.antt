-- ===== src/TensorIndex/Progress.antt =====
-- The loop of `read_index` ends: each entry takes at least 62 bytes.
use block_lut.Prelude.{
  ℕ, zero, suc, ◌+◌, ◌*◌, ◌≤◌, ◌≡◌, refl, List, [], ◌∷◌, length, leb, leb→le, Bool-cases, inl, inr,
  arith, length-drop,
}
use block_lut.Outcome.{Result, ok, raise, struct_error, ◌>>=◌}
use block_lut.TensorIndex.{
  Entry, unpack, unpack_signed, unpack_many, unpack_dims, read_entry, read_entries, read_index,
  times,
}

-- The call takes at least `k` bytes, or raises a struct.error.
abbrev pub Takes : {A : Type 0} → ℕ → List ℕ → Result (A × List ℕ) → Type 0
Takes k bytes (ok (a, rest)) = length rest + k ≤ length bytes
Takes k bytes (raise e) = e ≡ struct_error

Takes-more :
    {A : Type 0} (j k l : ℕ) (bytes rest : List ℕ) (r : Result (A × List ℕ))
    → l ≤ j + k
    → length rest + j ≤ length bytes
    → Takes k rest r
    → Takes l bytes r
Takes-more j k l bytes rest (raise e) s t u = u
Takes-more j k l bytes rest (ok (a, left)) s t u = omega arith

Takes-bind :
    {A B : Type 0} (j k l : ℕ) (bytes : List ℕ) (r : Result (A × List ℕ))
    (f : A × List ℕ → Result (B × List ℕ))
    → l ≤ j + k
    → Takes j bytes r
    → ((a : A) (rest : List ℕ) → Takes k rest (f (a, rest)))
    → Takes l bytes (r >>= f)
Takes-bind j k l bytes (raise e) f s t next = t
Takes-bind j k l bytes (ok (a, rest)) f s t next =
    Takes-more j k l bytes rest (f (a, rest)) s t (next a rest)

unpack-Takes : (w : ℕ) (bytes : List ℕ) → Takes w bytes (unpack w bytes)
unfolding unpack
unpack-Takes w bytes = elim (Bool-cases (leb w (length bytes))) [
  | inl t ↦ rw t (omega (arith, leb→le w (length bytes) t, length-drop w bytes))
  | inr f ↦ rw f refl
]

unpack_signed-Takes : (w : ℕ) (bytes : List ℕ) → Takes w bytes (unpack_signed w bytes)
unfolding unpack_signed
unpack_signed-Takes w bytes =
    Takes-bind w 0 w bytes (unpack w bytes) _ (omega arith) (unpack-Takes w bytes)
      (λ a rest. omega arith)

unpack_many-Takes : (count : ℕ) (bytes : List ℕ) → Takes 0 bytes (unpack_many count bytes)
unfolding unpack_many
unpack_many-Takes zero bytes = omega arith
unpack_many-Takes (suc count) bytes =
    Takes-bind 8 0 0 bytes (unpack 8 bytes) _ (omega arith) (unpack-Takes 8 bytes) (λ a rest.
      Takes-bind 0 0 0 rest (unpack_many count rest) _ (omega arith) (unpack_many-Takes count rest)
        (λ b left. omega arith))

unpack_dims-Takes : (count : ℕ) (bytes : List ℕ) → Takes 0 bytes (unpack_dims count bytes)
unfolding unpack_dims
unpack_dims-Takes zero bytes = omega arith
unpack_dims-Takes (suc count) bytes =
    Takes-bind 8 0 0 bytes (unpack_signed 8 bytes) _ (omega arith) (unpack_signed-Takes 8 bytes)
      (λ a rest.
        Takes-bind 0 0 0 rest (unpack_dims count rest) _ (omega arith)
          (unpack_dims-Takes count rest) (λ b left. omega arith))

le_self : (l : ℕ) → l ≤ l
le_self l = omega arith

pub read_entry-Takes : (bytes : List ℕ) → Takes 62 bytes (read_entry bytes)
unfolding read_entry
read_entry-Takes p0 = Takes-bind 4 58 62 p0 _ _ (le_self _) (unpack-Takes 4 p0) (λ a0 p1.
    Takes-bind 8 50 58 p1 _ _ (le_self _) (unpack_signed-Takes 8 p1) (λ a1 p2.
      Takes-bind 0 50 50 p2 _ _ (le_self _) (unpack_dims-Takes (times a1) p2) (λ a2 p3.
        Takes-bind 8 42 50 p3 _ _ (le_self _) (unpack-Takes 8 p3) (λ a3 p4.
          Takes-bind 8 34 42 p4 _ _ (le_self _) (unpack-Takes 8 p4) (λ a4 p5.
            Takes-bind 1 33 34 p5 _ _ (le_self _) (unpack-Takes 1 p5) (λ a5 p6.
              Takes-bind 1 32 33 p6 _ _ (le_self _) (unpack-Takes 1 p6) (λ a6 p7.
                Takes-bind 1 31 32 p7 _ _ (le_self _) (unpack_signed-Takes 1 p7) (λ a7 p8.
                  Takes-bind 1 30 31 p8 _ _ (le_self _) (unpack_signed-Takes 1 p8) (λ a8 p9.
                    Takes-bind 1 29 30 p9 _ _ (le_self _) (unpack_signed-Takes 1 p9) (λ a9 p10.
                      Takes-bind 1 28 29 p10 _ _ (le_self _) (unpack_signed-Takes 1 p10) (λ a10 p11.
                        Takes-bind 4 24 28 p11 _ _ (le_self _) (unpack-Takes 4 p11) (λ a11 p12.
                          Takes-bind 4 20 24 p12 _ _ (le_self _) (unpack_signed-Takes 4 p12)
                            (λ a12 p13.
                              Takes-bind 4 16 20 p13 _ _ (le_self _) (unpack-Takes 4 p13)
                                (λ a13 p14.
                                  Takes-bind 0 16 16 p14 _ _ (le_self _) (unpack_many-Takes a13 p14)
                                    (λ a14 p15.
                                      Takes-bind 0 16 16 p15 _ _ (le_self _)
                                        (unpack_many-Takes (times a12) p15)
                                        (λ a15 p16.
                                          Takes-bind 0 16 16 p16 _ _ (le_self _)
                                            (unpack_many-Takes (times a12) p16)
                                            (λ a16 p17.
                                              Takes-bind 8 8 16 p17 _ _ (le_self _)
                                                (unpack-Takes 8 p17)
                                                (λ a17 p18.
                                                  Takes-bind 8 0 8 p18 _ _ (le_self _)
                                                    (unpack-Takes 8 p18)
                                                    (λ a18 p19. omega arith)))))))))))))))))))

-- At most one entry for 62 bytes, or a struct.error.
abbrev pub Ends : List ℕ → Result (List Entry) → Type 0
Ends bytes (ok entries) = length entries * 62 ≤ length bytes
Ends bytes (raise e) = e ≡ struct_error

read_entries-Ends :
    (fuel : ℕ) (bytes : List ℕ) → length bytes ≤ fuel → Ends bytes (read_entries fuel bytes)
unfolding read_entries
read_entries-Ends zero [] h = omega arith
read_entries-Ends zero (b ∷ bytes) h = absurd (omega arith)
read_entries-Ends (suc fuel) [] h = omega arith
read_entries-Ends (suc fuel) (b ∷ bytes) h =
    after (read_entry (b ∷ bytes)) (read_entry-Takes (b ∷ bytes))
      (λ rest l. read_entries-Ends fuel rest l)
  where
    one_more :
        (e : Entry) (rest : List ℕ) (r : Result (List Entry))
        → length rest + 62 ≤ length (b ∷ bytes)
        → Ends rest r
        → Ends (b ∷ bytes) (r >>= λ es. ok (e ∷ es))
    one_more e rest (raise x) t u = u
    one_more e rest (ok es) t u = omega arith

    after :
        (r : Result (Entry × List ℕ))
        → Takes 62 (b ∷ bytes) r
        → ((rest : List ℕ) → length rest ≤ fuel → Ends rest (read_entries fuel rest))
        → Ends (b ∷ bytes) (r >>= λ s. read_entries fuel (s.1) >>= λ rest. ok ((s.0) ∷ rest))
    after (raise e) t next = t
    after (ok (e, rest)) t next =
        one_more e rest (read_entries fuel rest) t (next rest (omega arith))

-- Whatever the bytes, the loop of `read_index` ends, and before the fuel of the model does, which
-- would be a RuntimeError: it returns at most one entry for 62 bytes of the file, or raises a
-- struct.error.
pub read_index-Ends : (bytes : List ℕ) → Ends bytes (read_index bytes)
unfolding read_index
read_index-Ends bytes = read_entries-Ends (length bytes) bytes (omega arith)
