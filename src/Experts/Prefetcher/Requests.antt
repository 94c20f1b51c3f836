-- ===== src/Experts/Prefetcher/Requests.antt =====
-- Which requests the prefetcher makes.
use block_lut.Prelude.{List}
use block_lut.Dict
