-- ===== src/MoeLayer/Wrapper.antt =====
-- `LUTMoEExpertWrapper`: the codes of one expert, and its weights in bf16 where they are kept.
-- Weights are their elements in row-major order, so that a reshape is a check of their number.
pub mod Recovers
use text.Mathlib.Text.{◌==◌}
use block_lut.Prelude.{
  ℕ, ◌*◌, Bool, true, false, String, Option, none, some, List, length, if◌then◌else◌,
}
use block_lut.Prelude.{◌==◌ as ℕ_eq}
use block_lut.Outcome.{
  Result, ok, raise, require, value_error, runtime_error, attribute_error, ◌>>=◌, ◌>>◌,
}
use block_lut.Quantizer.Numbers.{Numbers}
use block_lut.Quantizer.State.{LutQuantizer}
use block_lut.Quantizer.Codes.{Quantized, quantize, decompress_blocklut}

pub record ExpertWrapper (A : Type 0) : Type 0 where
  pub hidden_size : ℕ
  pub intermediate_size : ℕ
  pub quantizer : LutQuantizer A
  pub w13_indices : Option (List ℕ)
  pub w13_absmax : Option (List A)
  pub w2_indices : Option (List ℕ)
  pub w2_absmax : Option (List A)
  pub codebook : Option (List A)
  pub w13_bf16 : Option (List A)
  pub w2_bf16 : Option (List A)

module _ {A : Type 0} where
  unfoldable pub init : ℕ → ℕ → LutQuantizer A → ExpertWrapper A
  init hidden_size intermediate_size quantizer = record {
    hidden_size = hidden_size;
    intermediate_size = intermediate_size;
    quantizer = quantizer;
    w13_indices = none;
    w13_absmax = none;
    w2_indices = none;
    w2_absmax = none;
    codebook = none;
    w13_bf16 = none;
    w2_bf16 = none;
  }

  -- The buffers of `w2`, if its quantization returns.
  unfoldable pub store_w2 :
      Result (Quantized A) → ExpertWrapper A → Result (Unit {0}) × ExpertWrapper A
  store_w2 (raise e) s = (raise e, s)
  store_w2 (ok w2_q) s =
      (ok tt, record s { w2_indices = some (w2_q.indices); w2_absmax = some (w2_q.absmax) })

  -- The buffers of `w13`, and then those of `w2`.
  unfoldable pub store_w13 :
      Result (Quantized A)
      → Result (Quantized A)
      → ExpertWrapper A
      → Result (Unit {0}) × ExpertWrapper A
  unfolding store_w2
  store_w13 (raise e) w2 s = (raise e, s)
  store_w13 (ok w13_q) w2 s =
      store_w2 w2
        (record s { w13_indices = some (w13_q.indices); w13_absmax = some (w13_q.absmax) })

  unfoldable pub set_decompressed : List A → List A → ExpertWrapper A → ExpertWrapper A
  set_decompressed w13 w2 s = record s { w13_bf16 = some w13; w2_bf16 = some w2 }

  unfoldable pub has_decompressed : ExpertWrapper A → Bool
  has_decompressed s = elim s.w13_bf16 [ none ↦ false | some _ ↦ true ]

  unfoldable pub clear_decompressed : ExpertWrapper A → ExpertWrapper A
  clear_decompressed s = record s { w13_bf16 = none; w2_bf16 = none }

  -- `values.reshape(rows, columns)`, for the number of elements that this makes
  unfoldable pub reshape : ℕ → List A → Result (List A)
  reshape size values = require (ℕ_eq (length values) size) runtime_error >> ok values

module _ {A : Type 0} (n : Numbers A) where
  unfoldable pub set_weights :
      List A → List A → List A → ExpertWrapper A → Result (Unit {0}) × ExpertWrapper A
  unfolding store_w13
  set_weights w13_weight w2_weight codebook s =
      store_w13 (quantize n s.quantizer w13_weight (some codebook))
        (quantize n s.quantizer w2_weight (some codebook)) (record s { codebook = some codebook })

  -- `decompress_blocklut` of buffers that may be None, which have no attributes.
  unfoldable pub decompress_buffers :
      Option (List ℕ) → Option (List A) → Option (List A) → ℕ → Result (List A)
  unfolding decompress_blocklut
  decompress_buffers (some indices) (some absmax) (some codebook) block_size =
      decompress_blocklut n indices absmax codebook block_size
  decompress_buffers none absmax codebook block_size = raise attribute_error
  decompress_buffers (some _) none codebook block_size = raise attribute_error
  decompress_buffers (some _) (some _) none block_size = raise attribute_error

  -- The weights that are kept, or else those of the buffers.
  unfoldable pub kept_or_decompressed :
      Option (List A) → Option (List ℕ) → Option (List A) → ExpertWrapper A → ℕ → Result (List A)
  unfolding decompress_buffers reshape
  kept_or_decompressed (some kept) indices absmax s size = ok kept
  kept_or_decompressed none indices absmax s size =
      decompress_buffers indices absmax s.codebook (s.quantizer.block_size) >>= reshape size

  unfoldable pub get_weight : String → ExpertWrapper A → Result (List A)
  unfolding kept_or_decompressed
  get_weight name s =
      if name == "w13"
      then kept_or_decompressed s.w13_bf16 s.w13_indices s.w13_absmax s
          (2 * s.intermediate_size * s.hidden_size)
      else if name == "w2"
      then kept_or_decompressed s.w2_bf16 s.w2_indices s.w2_absmax s
          (s.hidden_size * s.intermediate_size)
      else raise value_error
