-- ===== src/Memory/Policies.antt =====
-- The constants of src/jaull/estimator/policies.py.
use jaull.Base.{ℕ, ◌*◌}
use jaull.Inference.{WeightPrecision}

abbrev pub mib : ℕ
mib = 1024 * 1024

-- `BYTES_PER_PARAM`, in half bytes: 4.0, 2.0, 2.0, 1.0 and 0.5 bytes.
unfoldable pub half_bytes_per_parameter : WeightPrecision → ℕ
half_bytes_per_parameter WeightPrecision.float32 = 8
half_bytes_per_parameter WeightPrecision.float16 = 4
half_bytes_per_parameter WeightPrecision.bfloat16 = 4
half_bytes_per_parameter WeightPrecision.int8 = 2
half_bytes_per_parameter WeightPrecision.int4 = 1

abbrev pub overhead_base_bytes : ℕ
overhead_base_bytes = 512 * mib

-- `OVERHEAD_WEIGHT_FRACTION` as a percentage.
abbrev pub overhead_weight_percent : ℕ
overhead_weight_percent = 10

abbrev pub overhead_min_bytes : ℕ
overhead_min_bytes = 256 * mib

abbrev pub gguf_overhead_weight_percent : ℕ
gguf_overhead_weight_percent = 0

abbrev pub gguf_overhead_base_bytes : ℕ
gguf_overhead_base_bytes = 256 * mib

abbrev pub gguf_device_headroom_bytes : ℕ
gguf_device_headroom_bytes = 1024 * mib

abbrev pub safety_margin_default_percent : ℕ
safety_margin_default_percent = 10
