-- ===== src/Planning.antt =====
-- The planning of the cache in runtime/cache_planning.py: the operations on numbers are
-- parameters, and where a theorem asks for exact arithmetic, rounding is left out.
pub mod Scalars
pub mod Distribution
pub mod Trace
pub mod Coverage
pub mod Scaling
pub mod Weights
pub mod Delay
pub mod Pool
pub mod Plan
