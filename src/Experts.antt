-- ===== src/Experts.antt =====
-- The Python side of the expert scheduling, in experts/: what is recorded of the experts that a
-- layer activates, the prediction for the next layer, and the requests to the dispatcher.
pub mod Predictor
pub mod Executor
pub mod Prefetcher
