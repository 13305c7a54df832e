-- ===== src/Fit.antt =====
-- Placement-aware hardware fit: src/jaull/estimator/hardware_fit.py. The children `Floats`,
-- `Split`, `Placement`, `Search`, `Offload`, `Results` and `Analyze` hold the program's functions, from the
-- byte splits up to `analyze_components`; the others hold proofs about them.
pub mod Floats
pub mod Split
pub mod Placement
pub mod Search
pub mod Offload
pub mod Results
pub mod Analyze
pub mod Conserve
pub mod Loops
pub mod Ceiling
pub mod Monotone
pub mod Promise
pub mod Sound
pub mod Outcome
pub mod Largest
pub mod Bytes
pub mod Chosen
