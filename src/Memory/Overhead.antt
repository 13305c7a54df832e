-- ===== src/Memory/Overhead.antt =====
-- The runtime overhead: src/jaull/estimator/overhead.py. The two fractions that its callers pass are
-- 0.10 and 0.0; `int(0.10 * weights)` is a tenth, rounded down, for all weights below 2 ^ 50 bytes.
use native.Mathlib.Nat.{mul-le-mul_left}
use jaull.Base.{refl, ℕ, ◌+◌, ◌*◌, ◌/◌, ◌≤◌, ◌≡◌, Option, none, some, max, arith}
use jaull.Estimation.{EstimateSource, EstimationConfidence, RuntimeOverheadEstimate}
use jaull.Memory.Policies.{overhead_min_bytes, gguf_overhead_weight_percent}

unfoldable pub overhead_bytes : Option ℕ → ℕ → ℕ → ℕ
overhead_bytes none base weight_percent = max overhead_min_bytes base
overhead_bytes (some weights) base weight_percent =
    max overhead_min_bytes (base + (weight_percent * weights) / 100)

unfoldable pub estimate_overhead : Option ℕ → ℕ → ℕ → RuntimeOverheadEstimate
unfolding overhead_bytes
estimate_overhead weights_bytes base_bytes weight_percent = record {
  component = record {
    name = "Runtime overhead";
    bytes = some (overhead_bytes weights_bytes base_bytes weight_percent);
    source = EstimateSource.assumed;
    confidence = EstimationConfidence.low;
  };
  base_bytes = base_bytes;
  weight_percent = weight_percent;
  minimum_bytes = overhead_min_bytes;
}

-- The overhead is at least the base and the minimum, grows with the weights, and for a GGUF file,
-- whose percentage is zero, does not depend on them.
overhead_bytes_bounds :
    (known : Option ℕ) {weights weights' : ℕ} (base percent : ℕ)
    → weights ≤ weights'
    → (overhead_min_bytes ≤ overhead_bytes known base percent)
      × (base ≤ overhead_bytes known base percent)
      × (overhead_bytes (some weights) base percent ≤ overhead_bytes (some weights') base percent)
      × (overhead_bytes known base gguf_overhead_weight_percent ≡ max overhead_min_bytes base)
unfolding overhead_bytes
overhead_bytes_bounds none base percent h =
    let grows = mul-le-mul_left percent h in (omega arith, omega arith, omega (arith, grows), refl)
overhead_bytes_bounds (some w) base percent h =
    let grows = mul-le-mul_left percent h in
    (omega arith, omega arith, omega (arith, grows), omega arith)
