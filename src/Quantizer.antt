-- ===== src/Quantizer.antt =====
-- The LUT quantizer of vllm_lut/quantizer.py over an abstract type of floats: `Numbers` is the
-- interface to torch. Tensors are their elements in row-major order, so views are left out.
pub mod Numbers
pub mod State
pub mod Kmeans
pub mod Nested
pub mod Codes
pub mod Files
pub mod Blocks
