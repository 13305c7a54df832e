-- ===== src/Samples.antt =====
-- Concrete values that the tests run the model on: exact arithmetic in place of the doubles, one
-- machine with a graphics card, and one small configuration.
use native.Mathlib.Nat.{
  mul-le-mul_left, lt-div-mul-add, div-lt_iff_lt-mul, le-div_iff_mul-le, div-mul-le_self,
}
use jaull.Base.{ℕ, ◌+◌, ◌-◌, ◌*◌, ◌/◌, ◌≤◌, ◌<◌, refl, true, none, some, [], ◌∷◌, arith}
use jaull.Hardware.{HardwareProfile, GpuInfo}
use jaull.Inference.{InferenceConfiguration, TargetDevice, WeightPrecision}
use jaull.Model.{ModelConfig}
use jaull.Fit.Floats.{Floats, IsRounded}
use jaull.Estimation.{EstimateSource, EstimationConfidence, WeightEstimate}
use jaull.Fit.Placement.{Demand}
use jaull.Fit.Conserve.{IsExact}
use jaull.Fit.Offload.{Supply}

abbrev ceiling : ℕ → ℕ → ℕ
ceiling a b = (a + (b - 1)) / b

abbrev pub exact_floats : Floats
exact_floats = record { ceil_quot = ceiling; ceil_share = λ a b c. ceiling (a * b) c }

ceiling-le : (a b c : ℕ) → b ≤ c → 0 < c → ceiling (a * b) c ≤ a
ceiling-le a b c h pos =
    let le = mul-le-mul_left a h in
    let below = (div-lt_iff_lt-mul {x = a * b + (c - 1)} {y = a + 1} pos).1 (omega (arith, le)) in
    omega arith

ceiling_mono : (a b c : ℕ) → a ≤ b → 0 < c → ceiling a c ≤ ceiling b c
ceiling_mono a b c h pos =
    let le = div-mul-le_self (a + (c - 1)) c in
    (le-div_iff_mul-le {x = ceiling a c} {y = b + (c - 1)} pos).1 (omega arith)

ceiling-covers : (a c : ℕ) → 0 < c → a ≤ c * ceiling a c
ceiling-covers a c pos = let over = lt-div-mul-add {a = a + (c - 1)} pos in omega arith

pub exact_floats-IsRounded : IsRounded exact_floats
exact_floats-IsRounded = record {
  quot_exact = λ a b small pos. refl;
  share_le = λ a b c small h pos. ceiling-le a b c h pos;
  share_mono = λ a b b' c h pos. ceiling_mono (a * b) (a * b') c (mul-le-mul_left a h) pos;
  share_covers = λ a b c small h pos. ceiling-covers (a * b) c pos;
}

-- A demand of 138 bytes, on a machine where neither pool alone would do.
abbrev pub sample_demand : Demand
sample_demand = record {
  weights_bytes = 100;
  kv_cache_bytes = 20;
  overhead_bytes = 10;
  device_reserve_bytes = 5;
  safety_margin_bytes = 3;
}

pub sample_demand-IsExact : IsExact sample_demand
sample_demand-IsExact = record {
  kv_cache_exact = omega arith;
  overhead_exact = omega arith;
  safety_margin_exact = omega arith;
}

abbrev pub sample_supply : Supply
sample_supply = record { available_vram = 100; available_ram = 90 }

abbrev pub sample_gpu : GpuInfo
sample_gpu = record {
  name = "GPU";
  vram_total_bytes = 120;
  vram_available_bytes = 100;
  driver_version = none;
  cuda_version = none;
}

abbrev pub sample_machine : HardwareProfile
sample_machine = record {
  os = "Linux";
  os_version = none;
  arch = "x86_64";
  cpu = record { model = none; physical_cores = some 4; logical_cores = some 8 };
  memory = record { total_bytes = 120; available_bytes = 90 };
  storage = [];
  gpus = sample_gpu ∷ [];
  accelerators = [];
  warnings = [];
}

abbrev pub sample_config : ModelConfig
sample_config = record {
  model_type = some "Llama";
  torch_dtype = some "bfloat16";
  hidden_size = some 8;
  num_hidden_layers = some 2;
  num_attention_heads = some 2;
  num_key_value_heads = some 1;
  head_dim = none;
  intermediate_size = some 16;
  sliding_window = some 4;
  use_sliding_window = some true;
  tie_word_embeddings = some true;
  vocab_size = some 10;
  raw_flags = [];
}

abbrev pub sample_weights : WeightEstimate
sample_weights = record {
  component = record {
    name = "Weights";
    bytes = some 2000;
    source = EstimateSource.exact;
    confidence = EstimationConfidence.high;
  };
  num_parameters = none;
  bits_per_parameter = none;
  precision = none;
  gguf_variant = none;
  transformer_block_decomposition = none;
}

abbrev pub sample_inference : InferenceConfiguration
sample_inference = record {
  context_length = 16;
  batch_size = 1;
  target_device = TargetDevice.auto;
  precision = none;
  quantization = none;
  kv_cache_dtype = WeightPrecision.float16;
  safety_margin_percent = 10;
  device_reserve_bytes = 512;
  concurrent_users = 1;
}
