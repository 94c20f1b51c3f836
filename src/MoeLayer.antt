-- ===== src/MoeLayer.antt =====
-- The MoE layer for vLLM, vllm_lut/moe_layer.py: the wrapper of one expert's codes (Wrapper),
-- the layer that holds the wrappers (Layer), and its forward pass, which routes the tokens to the
-- experts (Forward).
pub mod Wrapper
pub mod Layer
pub mod Forward
