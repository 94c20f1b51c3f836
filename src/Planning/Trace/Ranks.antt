-- ===== src/Planning/Trace/Ranks.antt =====
-- The counts of a trace stand by rank.
use block_lut.Prelude.{
  ℕ, zero, suc, ◌+◌, ◌*◌, ◌/◌, ◌≤◌, ◌≡◌, subst, List, [], ◌∷◌, length, replicate, range', All,
  arith, ◌==◌, Bool-cases, inl, inr,
}
use block_lut.Outcome.{Result, ok, raise, ◌>>=◌}
use block_lut.Counter.{sort_onto}
use block_lut.Counter.Largest.{IsFalling, sort_onto-IsFalling}
use block_lut.Planning.Trace.{
  Trace, add_lists, index, batch_invocation, batch_layers, all_batches, many_batches_data,
}

-- If there is a result, it has the property.
Gives : {A : Type 0} → (A → Type 0) → Result A → Type 0
Gives P (raise e) = Unit
Gives P (ok a) = P a

Gives-bind :
    {A B : Type 0} (P : B → Type 0) (r : Result A) (f : A → Result B)
    → ((a : A) → Gives P (f a))
    → Gives P (r >>= f)
unfolding Gives
Gives-bind P (raise e) f h = tt
Gives-bind P (ok a) f h = h a

Gives-bind_of :
    {A B : Type 0} (Q : A → Type 0) (P : B → Type 0) (r : Result A) (f : A → Result B)
    → Gives Q r
    → ((a : A) → Q a → Gives P (f a))
    → Gives P (r >>= f)
unfolding Gives
Gives-bind_of Q P (raise e) f h k = tt
Gives-bind_of Q P (ok a) f h k = k a h

-- No count is larger than an earlier one.
abbrev IsRanked : List ℕ → Type 0
IsRanked counts = IsFalling (λ n. n) counts

All-add_lists :
    (m n : ℕ) (xs ys : List ℕ)
    → All (λ x. x ≤ m) xs
    → All (λ y. y ≤ n) ys
    → All (λ z. z ≤ m + n) (add_lists xs ys)
unfolding add_lists
All-add_lists m n [] ys h k = tt
All-add_lists m n (x ∷ xs) [] h k = tt
All-add_lists m n (x ∷ xs) (y ∷ ys) h k = (omega (arith, h.0, k.0), All-add_lists m n xs ys h.1 k.1)

add_lists-IsRanked : (xs ys : List ℕ) → IsRanked xs → IsRanked ys → IsRanked (add_lists xs ys)
unfolding add_lists
add_lists-IsRanked [] ys h k = tt
add_lists-IsRanked (x ∷ xs) [] h k = tt
add_lists-IsRanked (x ∷ xs) (y ∷ ys) h k =
    (All-add_lists x y xs ys h.0 k.0, add_lists-IsRanked xs ys h.1 k.1)

All-replicate : (n : ℕ) → All (λ x. x ≤ 0) (replicate n 0)
All-replicate zero = tt
All-replicate (suc n) = (omega arith, All-replicate n)

replicate-IsRanked : (n : ℕ) → IsRanked (replicate n 0)
replicate-IsRanked zero = tt
replicate-IsRanked (suc n) = (All-replicate n, replicate-IsRanked n)

batch_layers-IsRanked :
    (trace : Trace) (experts size first : ℕ) (layers batch_data : List ℕ)
    → IsRanked batch_data
    → Gives IsRanked (batch_layers trace experts size first layers batch_data)
unfolding Gives batch_layers
batch_layers-IsRanked trace experts size first [] batch_data h = h
batch_layers-IsRanked trace experts size first (layer ∷ layers) batch_data h =
    Gives-bind IsRanked (batch_invocation trace layer first size (replicate experts 0)) _
      (λ in_batch. batch_layers-IsRanked trace experts size first layers _ (
        add_lists-IsRanked batch_data (sort_onto (λ n. n) [] in_batch) h
          (sort_onto-IsFalling (λ n. n) [] in_batch tt)))

all_batches-IsRanked :
    (trace : Trace) (layers experts size : ℕ) (batches many : List ℕ)
    → IsRanked many
    → Gives IsRanked (all_batches trace layers experts size batches many)
unfolding Gives all_batches
all_batches-IsRanked trace layers experts size [] many h = h
all_batches-IsRanked trace layers experts size (b ∷ batches) many h =
    Gives-bind_of IsRanked IsRanked
      (batch_layers trace experts size (b * size) (range' 0 layers) (replicate experts 0)) _
      (batch_layers-IsRanked trace experts size (b * size) (range' 0 layers) (replicate experts 0)
        (replicate-IsRanked experts))
      (λ batch_data ranked.
        all_batches-IsRanked trace layers experts size batches _
          (add_lists-IsRanked many batch_data h ranked))

Gives-many_batches_data :
    (batch_size : ℕ) (trace : Trace) → Gives IsRanked (many_batches_data batch_size trace)
unfolding many_batches_data Gives
Gives-many_batches_data batch_size trace = Gives-bind IsRanked (index trace 0) _ (λ first.
    Gives-bind IsRanked (index first 0) _ (λ layer. elim (Bool-cases (batch_size == 0)) [
      | inl z ↦ rw z tt
      | inr z ↦ rw z (
          all_batches-IsRanked trace (length first) (length layer) batch_size
            (range' 0 (length trace / batch_size)) (replicate (length layer) 0)
            (replicate-IsRanked (length layer)))
    ]))

-- Whatever the trace, the counts that are collected from its batches fall from rank to rank: the
-- planning, which gives the first places of the pool to the first ranks, gives them to the most
-- frequent ones.
many_batches_data-IsRanked :
    (batch_size : ℕ) (trace : Trace) (counts : List ℕ)
    → many_batches_data batch_size trace ≡ ok counts
    → IsRanked counts
unfolding Gives
many_batches_data-IsRanked batch_size trace counts made =
    subst (Gives IsRanked) made (Gives-many_batches_data batch_size trace)
