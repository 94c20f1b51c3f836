-- ===== src/Planning/Delay.antt =====
-- `DelaySimu`: the delay of a layer's experts, of which some are cached in full and some in
-- compressed form. Divisions of Python numbers by 0 are a ZeroDivisionError.
use block_lut.Prelude.{ℕ, Bool, not, List, ◌==◌, if◌then◌else◌}
use block_lut.Outcome.{Result, ok, require, zero_division, ◌>>=◌, ◌>>◌}
use block_lut.Planning.Scalars.{Arithmetic}

-- Python's numbers: integers among floats, division and the order.
pub record Estimates (A : Type 0) : Type 0 where
  pub arithmetic : Arithmetic A
  pub count : ℕ → A
  pub div : A → A → A
  pub less : A → A → Bool
  pub is_zero : A → Bool
  pub three_tenths : A
  -- `int(x)`, for an `x` that is not negative
  pub int : A → ℕ
  -- `==` of the keys of a Counter
  pub same : A → A → Bool
  -- pandas: the rolling mean of width 5, and the index of the least value
  pub smooth : List A → List A
  pub idxmin : List A → ℕ

-- The arguments of the simulation of a layer.
pub record Costs (A : Type 0) : Type 0 where
  pub decompression_delay : A
  pub sm_io_delay : A
  pub compression_ratio : A
  pub num_file_chunks : ℕ
  pub tensors_per_expert : ℕ
  pub compute_pool_size : ℕ

-- The divisor, unless it is 0.
unfoldable pub divisor : ℕ → Result ℕ
divisor n = require (not (n == 0)) zero_division >> ok n

module _ {A : Type 0} (f : Estimates A) where
  open f use {arithmetic, count, div, less}
  open arithmetic use {add, mul, sub}

  -- `max(a, b)`
  unfoldable pub maximum : A → A → A
  maximum a b = if less a b then b else a

  unfoldable pub delay_simu : Costs A → ℕ → ℕ → ℕ → Result A
  unfolding divisor maximum
  delay_simu c k num_full_cached num_sm_cached = do
    chunks ← divisor c.num_file_chunks
    pool ← divisor c.compute_pool_size
    let missing = sub (count k) (count num_full_cached)
    let num_compute_ops = mul (mul (count chunks) missing) (count c.tensors_per_expert)
    let exp_io_delay = div (mul c.sm_io_delay c.compression_ratio) (count chunks)
    let compute_bottleneck =
        mul (div num_compute_ops (count pool)) (add c.decompression_delay exp_io_delay)
    let io_full =
        mul (mul (count c.tensors_per_expert) c.sm_io_delay) (sub missing (count num_sm_cached))
    let io_sm =
        mul (mul (mul (count num_sm_cached) (count c.tensors_per_expert)) c.sm_io_delay)
          c.compression_ratio
    ok (maximum compute_bottleneck (add io_full io_sm))
