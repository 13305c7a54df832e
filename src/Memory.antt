-- ===== src/Memory.antt =====
-- The components of a memory estimate: src/jaull/estimator/policies.py, weights.py, kv_cache.py and
-- overhead.py.
pub mod Policies
pub mod KvCache
pub mod Weights
pub mod Overhead
