-- ===== src/Inference.antt =====
-- The knobs of one memory estimate: src/jaull/domain/inference.py.
use jaull.Base.{ℕ, String, Bool, true, false, Option}

pub data TargetDevice : Type 0 where
  auto gpu cpu : TargetDevice

pub data WeightPrecision : Type 0 where
  float32 float16 bfloat16 int8 int4 : WeightPrecision

-- `safety_margin_percent` is a whole number of percents here.
pub record InferenceConfiguration : Type 0 where
  pub context_length : ℕ
  pub batch_size : ℕ
  pub target_device : TargetDevice
  pub precision : Option WeightPrecision
  pub quantization : Option String
  pub kv_cache_dtype : WeightPrecision
  pub safety_margin_percent : ℕ
  pub device_reserve_bytes : ℕ
  pub concurrent_users : ℕ

-- `precision == other`
abbrev pub same_precision : WeightPrecision → WeightPrecision → Bool
same_precision WeightPrecision.float32 WeightPrecision.float32 = true
same_precision WeightPrecision.float16 WeightPrecision.float16 = true
same_precision WeightPrecision.bfloat16 WeightPrecision.bfloat16 = true
same_precision WeightPrecision.int8 WeightPrecision.int8 = true
same_precision WeightPrecision.int4 WeightPrecision.int4 = true
same_precision _ _ = false
