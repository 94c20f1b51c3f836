-- ===== src/Tests.antt =====
-- Runs on concrete inputs, and the theorems at inputs that meet their hypotheses.
mod Storage
mod ExpertCache
mod Experts
mod Loading
mod Architectures
mod Plans
mod Quantizers
mod OffloadFiles
mod Engine
mod Scaled
mod Layers
mod Blocks
mod Pools
mod Setup
mod Integers
