-- ===== src/Service.antt =====
-- The memory estimate of one model: src/jaull/estimator/service.py. The weight estimate and the
-- effective configuration are inputs of `estimate_sizes`, which is `estimate_memory` from the
-- decomposition of the weights on.
pub mod Totals
pub mod Safe
pub mod Total
pub mod Again
use jaull.Base.{
  ℕ, ◌+◌, String, Bool, true, false, not, ◌&&◌, ◌||◌, Option, none, some, List, [], ◌∷◌, or_number,
  ltb, leb, ◌==◌, max, if◌then◌else◌,
}
use jaull.Hardware.{HardwareProfile}
use jaull.Inference.{InferenceConfiguration}
use jaull.Estimation.{
  EstimateSource, EstimationConfidence, CompatibilityAssessment, MemoryComponent, WeightEstimate,
  KvCacheEstimate, RuntimeOverheadEstimate, HardwareFitResult,
}
use jaull.Model.{ModelConfig}
use jaull.Fit.Floats.{Floats}
use jaull.Fit.Analyze.{Checked, Failure, ◌>>=◌}
use jaull.Memory.Policies.{
  gguf_overhead_base_bytes, overhead_base_bytes, gguf_overhead_weight_percent,
  overhead_weight_percent, gguf_device_headroom_bytes, safety_margin_default_percent,
}
use jaull.Memory.KvCache.{estimate_kv_cache}
use jaull.Memory.Overhead.{estimate_overhead}
use jaull.Memory.Weights.Shares.{add_transformer_block_decomposition}
use jaull.Compatibility.Components.{Components, ComponentAssessment, assess_components_with_fit}

pub record MemoryEstimate : Type 0 where
  pub is_gguf : Bool
  pub inference_configuration : InferenceConfiguration
  pub weights : WeightEstimate
  pub kv_cache : KvCacheEstimate
  pub runtime_overhead : RuntimeOverheadEstimate
  pub device_reserve : MemoryComponent
  pub safety_margin : Option MemoryComponent
  pub total_bytes : Option ℕ
  pub assessment : CompatibilityAssessment
  pub hardware_fit : Option HardwareFitResult

unfoldable pub device_reserve_component : ℕ → MemoryComponent
device_reserve_component reserve_bytes = record {
  name = "Device reserve";
  bytes = some reserve_bytes;
  source = EstimateSource.assumed;
  confidence = EstimationConfidence.low;
}

-- `math.ceil(subtotal * (percent / 100.0))`
unfoldable pub safety_margin_component : Floats → Option ℕ → ℕ → Option MemoryComponent
safety_margin_component fl none percent = none
safety_margin_component fl (some subtotal) percent =
    if percent == 0
    then none
    else some (record {
      name = "Safety margin";
      bytes = some (fl.ceil_share subtotal percent 100);
      source = EstimateSource.assumed;
      confidence = EstimationConfidence.medium;
    })

-- The sum of the known values; unknown if none is known.
unfoldable pub sum_components : List (Option ℕ) → Option ℕ
sum_components [] = none
sum_components (none ∷ values) = sum_components values
sum_components (some n ∷ values) = some (n + or_number (sum_components values) 0)

-- `_CONFIDENCE_ORDER`
unfoldable pub confidence_order : EstimationConfidence → ℕ
confidence_order EstimationConfidence.high = 3
confidence_order EstimationConfidence.medium = 2
confidence_order EstimationConfidence.low = 1
confidence_order EstimationConfidence.unknown = 0

-- The first minimum of `best` and the rest.
unfoldable pub least_confidence :
    EstimationConfidence → List EstimationConfidence → EstimationConfidence
unfolding confidence_order
least_confidence best [] = best
least_confidence best (c ∷ values) =
    least_confidence (if ltb (confidence_order c) (confidence_order best) then c else best) values

unfoldable pub combined_confidence : List EstimationConfidence → EstimationConfidence
unfolding least_confidence
combined_confidence [] = EstimationConfidence.unknown
combined_confidence (c ∷ values) = least_confidence c values

-- The reserve and the margin percentage after the GGUF headroom rule.
unfoldable pub headroom : Bool → ℕ → ℕ → ℕ × ℕ
headroom false reserve_bytes margin_percent = (reserve_bytes, margin_percent)
headroom true reserve_bytes margin_percent = (
  max reserve_bytes gguf_device_headroom_bytes,
  if margin_percent == safety_margin_default_percent then 0 else margin_percent,
)

unfoldable pub bytes_of : Option MemoryComponent → Option ℕ
bytes_of none = some 0
bytes_of (some component) = component.bytes

-- `assessment.model_copy(update={"confidence": confidence})`
unfoldable pub with_confidence :
    EstimationConfidence → CompatibilityAssessment → CompatibilityAssessment
with_confidence confidence a = record {
  status = a.status;
  confidence = confidence;
  target_device = a.target_device;
  effective_device = a.effective_device;
  available_vram_bytes = a.available_vram_bytes;
  available_ram_bytes = a.available_ram_bytes;
  ratio = a.ratio;
  reasons = a.reasons;
  warnings = a.warnings;
}

-- The sizes, before the comparison with the machine.
pub record Sizes : Type 0 where
  pub weights : WeightEstimate
  pub kv_cache : KvCacheEstimate
  pub runtime_overhead : RuntimeOverheadEstimate
  pub device_reserve : MemoryComponent
  pub safety_margin : Option MemoryComponent
  pub total_bytes : Option ℕ

unfoldable pub sizes :
    Floats → Bool → InferenceConfiguration → WeightEstimate → KvCacheEstimate → Sizes
unfolding device_reserve_component safety_margin_component sum_components headroom bytes_of
    estimate_overhead
sizes fl is_gguf cfg weights kv_cache =
    let overhead =
      estimate_overhead weights.component.bytes
        (if is_gguf then gguf_overhead_base_bytes else overhead_base_bytes)
        (if is_gguf then gguf_overhead_weight_percent else overhead_weight_percent) in
    let (reserve_bytes, margin_percent) =
      headroom is_gguf cfg.device_reserve_bytes cfg.safety_margin_percent in
    let reserve = device_reserve_component reserve_bytes in
    let subtotal = sum_components (
      weights.component.bytes ∷ kv_cache.component.bytes ∷ overhead.component.bytes ∷ reserve.bytes
      ∷ []) in
    let margin = safety_margin_component fl subtotal margin_percent in
    record {
      weights = weights;
      kv_cache = kv_cache;
      runtime_overhead = overhead;
      device_reserve = reserve;
      safety_margin = margin;
      total_bytes = sum_components (subtotal ∷ bytes_of margin ∷ []);
    }

-- `safety_margin.bytes if safety_margin is not None and safety_margin.bytes else 0`
abbrev pub margin_bytes : Option MemoryComponent → ℕ
margin_bytes none = 0
margin_bytes (some component) = or_number component.bytes 0

unfoldable pub components_of : Sizes → Components
components_of s = record {
  weights_bytes = s.weights.component.bytes;
  kv_cache_bytes = s.kv_cache.component.bytes;
  overhead_bytes = s.runtime_overhead.component.bytes;
  device_reserve_bytes = or_number s.device_reserve.bytes 0;
  safety_margin_bytes = margin_bytes s.safety_margin;
  total_bytes = s.total_bytes;
  total_transformer_blocks = s.kv_cache.layers;
}

-- The estimate, from the sizes and what was found of the machine.
unfoldable pub finish :
    Bool → InferenceConfiguration → Sizes → ComponentAssessment → Checked MemoryEstimate
unfolding combined_confidence with_confidence
finish is_gguf cfg s found = elim found.assessment [
  | none ↦ Checked.raised Failure.assertion
  | some assessment ↦ Checked.ok (record {
    is_gguf = is_gguf;
    inference_configuration = cfg;
    weights = s.weights;
    kv_cache = s.kv_cache;
    runtime_overhead = s.runtime_overhead;
    device_reserve = s.device_reserve;
    safety_margin = s.safety_margin;
    total_bytes = s.total_bytes;
    assessment =
        with_confidence
          (combined_confidence (
            s.weights.component.confidence ∷ s.kv_cache.component.confidence
            ∷ s.runtime_overhead.component.confidence ∷ assessment.confidence ∷ []))
          assessment;
    hardware_fit = found.fit;
  })
]

-- The division by zero of `add_transformer_block_decomposition` and `estimate_kv_cache` is a failure.
unfoldable pub or_raise : {A : Type 0} → Option A → Checked A
or_raise none = Checked.raised Failure.zero_heads
or_raise (some a) = Checked.ok a

unfoldable pub estimate_sizes :
    Floats
    → Bool
    → WeightEstimate
    → Option ModelConfig
    → HardwareProfile
    → InferenceConfiguration
    → Checked MemoryEstimate
unfolding sizes components_of finish or_raise assess_components_with_fit estimate_kv_cache
    add_transformer_block_decomposition
estimate_sizes fl is_gguf weight_estimate effective_config hardware cfg = do
  weights ← or_raise (add_transformer_block_decomposition weight_estimate effective_config)
  kv ← or_raise (
      estimate_kv_cache effective_config cfg.context_length cfg.batch_size cfg.kv_cache_dtype
        cfg.concurrent_users)
  found ←
      assess_components_with_fit fl (components_of (sizes fl is_gguf cfg weights kv)) hardware
        cfg.target_device weights.transformer_block_decomposition
  finish is_gguf cfg (sizes fl is_gguf cfg weights kv) found
