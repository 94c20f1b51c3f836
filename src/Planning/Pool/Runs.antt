-- ===== src/Planning/Pool/Runs.antt =====
-- The search ends without an error.
use block_lut.Prelude.{
  ℕ, ◌+◌, ◌-◌, ◌≤◌, ◌<◌, ◌≡◌, refl, Bool, true, false, not, Bool-cases, inl, inr, none, some, List,
  [], ◌∷◌, length, get_or, range', ltb, leb, if◌then◌else◌, arith,
}
use block_lut.Outcome.{Result, ok, Returns, Returns-bind, ◌>>=◌}
use block_lut.Planning.Delay.{Estimates, divisor, delay_simu}
use block_lut.Planning.Pool.{
  Pool, fits, full_cache_size, sm_cache_size, add_sm_hits, add_full_hits, convolve, average_of,
  average_delay, sm_slot_size,
}

-- The counts and sizes by which the code divides are positive, and there is a probability for
-- every expert.
pub record IsProper {A : Type 0} (f : Estimates A) (p : Pool A) : Type 0 where
  pub some_chunk : 0 < p.costs.num_file_chunks
  pub some_thread : 0 < p.costs.compute_pool_size
  pub some_layer : 0 < p.num_sparse_layers
  pub some_slot : 0 < sm_slot_size f p
  pub some_step : f.is_zero p.step_size ≡ false
  pub known : p.num_experts ≤ length p.all_probs

pub divisor-runs : (n : ℕ) → 0 < n → divisor n ≡ ok n
unfolding divisor
divisor-runs n h = ground arith

le→leb : (a b : ℕ) → a ≤ b → leb a b ≡ true
le→leb a b h = ground arith

optional-runs :
    {A : Type 0} (b : Bool) (m : Result A)
    → Returns (λ a. Unit {0}) m
    → Returns (λ a. Unit {0}) (if b then ok none else (m >>= λ a. ok (some a)))
optional-runs true m h = (none, refl, tt)
optional-runs false m (a, runs, _) = rw runs (some a, refl, tt)

module _ {A : Type 0} (f : Estimates A) (p : Pool A) where
  module _ (proper : IsProper f p) where
    delay_simu-runs : (full sm : ℕ) → Returns (λ d. Unit {0}) (delay_simu f p.costs p.k full sm)
    unfolding delay_simu
    delay_simu-runs full sm =
        rw
          (
            divisor-runs p.costs.num_file_chunks proper.some_chunk,
            divisor-runs p.costs.compute_pool_size proper.some_thread,
          )
          (_, refl, tt)

    add_sm_hits-runs :
        (full sm rest : List A) (total : A) (full_hit : ℕ) (hits : List ℕ) (avg : A)
        → Returns (λ d. Unit {0}) (add_sm_hits f p full sm rest total full_hit hits avg)
    unfolding add_sm_hits
    add_sm_hits-runs full sm rest total full_hit [] avg = (avg, refl, tt)
    add_sm_hits-runs full sm rest total full_hit (h ∷ hits) avg =
        elim (Bool-cases (ltb p.k (full_hit + h))) [
          | inl past ↦
              rw (add_sm_hits, past) (add_sm_hits-runs full sm rest total full_hit hits avg)
          | inr within ↦ elim (Bool-cases (leb (length rest) (p.k - (full_hit + h)))) [
            | inl none_left ↦
                rw (add_sm_hits, within, none_left)
                  (add_sm_hits-runs full sm rest total full_hit hits avg)
            | inr left ↦
                let (d, runs, _) = delay_simu-runs full_hit h in
                rw (add_sm_hits, within, left, runs)
                  (add_sm_hits-runs full sm rest total full_hit hits _)
          ]
        ]

    add_full_hits-runs :
        (full sm rest : List A) (total : A) (hits : List ℕ) (avg : A)
        → Returns (λ d. Unit {0}) (add_full_hits f p full sm rest total hits avg)
    unfolding add_full_hits
    add_full_hits-runs full sm rest total [] avg = (avg, refl, tt)
    add_full_hits-runs full sm rest total (h ∷ hits) avg =
        Returns-bind _ _ (add_sm_hits-runs full sm rest total h (range' 0 (length sm)) avg)
          (λ avg1 _. add_full_hits-runs full sm rest total hits avg1)

    -- The slots of a ratio that fits are no more than the experts.
    fits-le :
        (r : A) → fits f p r ≡ true → full_cache_size f p r + sm_cache_size f p r ≤ p.num_experts
    unfolding fits
    fits-le r h = ground arith

    average_of-runs :
        (full sm rest : List A) → Returns (λ d. Unit {0}) (average_of f p full sm rest)
    unfolding average_of
    average_of-runs full sm rest =
        let total = get_or (convolve f (convolve f full sm) rest) p.k f.arithmetic.zero in
        optional-runs (not (f.less f.arithmetic.zero total)) _
          (add_full_hits-runs full sm rest total (range' 0 (length full)) f.arithmetic.zero)

    pub average_delay-runs :
        (r : A) → fits f p r ≡ true → Returns (λ d. Unit {0}) (average_delay f p r)
    unfolding average_delay
    average_delay-runs r h =
        let known : leb (full_cache_size f p r + sm_cache_size f p r) (length p.all_probs) ≡ true =
          le→leb _ _ (omega (arith, fits-le r h, proper.known)) in
        rw (average_delay, known) (average_of-runs _ _ _)
