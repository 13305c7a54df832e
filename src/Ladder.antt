-- ===== src/Ladder.antt =====
-- The automatic choice of a configuration: src/jaull/estimator/configuration.py. As in the source, the
-- estimate is a function that the caller passes; the analysis is already applied to it. Quantization
-- names are compared by their code points.
pub mod Gguf
pub mod Transformers
pub mod Best
pub mod Precise
use jaull.Base.{
  ℕ, ◌*◌, String, Bool, true, false, not, ◌&&◌, ◌||◌, Option, none, some, List, [], ◌∷◌, ◌==◌,
  if◌then◌else◌,
}
use jaull.Hardware.{HardwareProfile}
use jaull.Inference.{InferenceConfiguration, TargetDevice, WeightPrecision}
use jaull.Estimation.{CompatibilityStatus, EstimationConfidence}
use jaull.Memory.Policies.{mib, safety_margin_default_percent}
use jaull.Service.{MemoryEstimate, with_confidence}

pub data RecommendationPriority : Type 0 where
  quality balanced speed memory : RecommendationPriority

-- The requirements, as far as the configuration follows from them.
pub record UserRequirements : Type 0 where
  pub priority : RecommendationPriority
  pub concurrent_users : ℕ
  pub desired_context : ℕ

abbrev pub EstimateFn : Type 0
EstimateFn = InferenceConfiguration → MemoryEstimate

-- One configuration that was tried.
pub record Tried : Type 0 where
  pub configuration : InferenceConfiguration
  pub estimate : MemoryEstimate

abbrev pub tried_status : Tried → CompatibilityStatus
tried_status tried = tried.estimate.assessment.status

unfoldable pub build_config :
    UserRequirements → Option String → Option WeightPrecision → InferenceConfiguration
build_config requirements quantization precision = record {
  context_length = requirements.desired_context;
  batch_size = 1;
  target_device = TargetDevice.auto;
  precision = precision;
  quantization = quantization;
  kv_cache_dtype = WeightPrecision.float16;
  safety_margin_percent = safety_margin_default_percent;
  device_reserve_bytes = 512 * mib;
  concurrent_users = requirements.concurrent_users;
}

-- `config.model_copy(update={"target_device": TargetDevice.CPU})`
unfoldable pub on_cpu : InferenceConfiguration → InferenceConfiguration
on_cpu cfg = record {
  context_length = cfg.context_length;
  batch_size = cfg.batch_size;
  target_device = TargetDevice.cpu;
  precision = cfg.precision;
  quantization = cfg.quantization;
  kv_cache_dtype = cfg.kv_cache_dtype;
  safety_margin_percent = cfg.safety_margin_percent;
  device_reserve_bytes = cfg.device_reserve_bytes;
  concurrent_users = cfg.concurrent_users;
}

-- `status in _ACCEPTABLE`
unfoldable pub is_acceptable : CompatibilityStatus → Bool
is_acceptable CompatibilityStatus.comfortable = true
is_acceptable CompatibilityStatus.compatible = true
is_acceptable CompatibilityStatus.tight = true
is_acceptable _ = false

abbrev pub is_tight : CompatibilityStatus → Bool
is_tight CompatibilityStatus.tight = true
is_tight _ = false

abbrev pub is_offloading : CompatibilityStatus → Bool
is_offloading CompatibilityStatus.offloading_required = true
is_offloading _ = false

abbrev pub is_unknown : CompatibilityStatus → Bool
is_unknown CompatibilityStatus.unknown = true
is_unknown _ = false

abbrev pub is_insufficient : CompatibilityStatus → Bool
is_insufficient CompatibilityStatus.insufficient = true
is_insufficient _ = false

-- The first option of a status.
unfoldable pub first_with : (CompatibilityStatus → Bool) → List Tried → Option Tried
first_with p [] = none
first_with p (tried ∷ options) = if p (tried_status tried) then some tried else first_with p options

abbrev pub first_of : List Tried → Option Tried
first_of [] = none
first_of (tried ∷ _) = some tried

abbrev or_try : Option Tried → Option Tried → Option Tried
or_try none other = other
or_try (some tried) other = some tried

-- `_fallback_option`, and none where there are no options.
unfoldable pub fallback_option : List Tried → Option Tried
unfolding first_with
fallback_option options = or_try (first_with is_offloading options) (
    or_try (first_with is_unknown options)
      (or_try (first_with is_insufficient options) (first_of options)))

-- `order[min(order.index(current) + 1, len(order) - 1)]`
unfoldable pub lowered_confidence : EstimationConfidence → EstimationConfidence
lowered_confidence EstimationConfidence.high = EstimationConfidence.medium
lowered_confidence EstimationConfidence.medium = EstimationConfidence.low
lowered_confidence EstimationConfidence.low = EstimationConfidence.low
lowered_confidence EstimationConfidence.unknown = EstimationConfidence.unknown

unfoldable pub lower_theoretical_confidence : MemoryEstimate → MemoryEstimate
unfolding lowered_confidence with_confidence
lower_theoretical_confidence m = record {
  is_gguf = m.is_gguf;
  inference_configuration = m.inference_configuration;
  weights = m.weights;
  kv_cache = m.kv_cache;
  runtime_overhead = m.runtime_overhead;
  device_reserve = m.device_reserve;
  safety_margin = m.safety_margin;
  total_bytes = m.total_bytes;
  assessment = with_confidence (lowered_confidence m.assessment.confidence) m.assessment;
  hardware_fit = m.hardware_fit;
}
