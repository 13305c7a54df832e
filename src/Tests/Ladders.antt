-- ===== src/Tests/Ladders.antt =====
-- Runs of the two ladders, and of the analysis of an estimate.
use mathlib.Core.List.{Memᴰ}
use jaull.Base.{
  ℕ, ◌≤◌, ◌≡◌, String, refl, Bool, true, false, none, some, Option, List, [], ◌∷◌, map, keep, arith,
  leb, length, codes, if◌then◌else◌,
}
use jaull.Hardware.{HardwareProfile}
use jaull.Inference.{InferenceConfiguration, TargetDevice, WeightPrecision}
use jaull.Estimation.{CompatibilityStatus, EstimationConfidence, HardwareFitResult, KvNote}
use jaull.Fit.Analyze.{Checked, analyze_discrete}
use jaull.Estimation.{HardwareMemoryTopology}
use jaull.Memory.KvCache.{unknown_kv_cache}
use jaull.Memory.Overhead.{estimate_overhead}
use jaull.Service.{MemoryEstimate, estimate_sizes}
use jaull.Service.Again.{analyze_estimate, analyze_estimate_same}
use jaull.Ladder.{RecommendationPriority, UserRequirements, Tried, tried_status}
use jaull.Ladder.Gguf.{rung_of, try_rung, select_gguf}
use jaull.Ladder.Best.{distance, select_gguf_closest}
use jaull.Ladder.Transformers.{try_precision, is_limited, select_transformers}
use jaull.Ladder.Precise.{select_transformers_closest}
use jaull.Samples.{
  exact_floats, sample_demand, sample_config, sample_machine, sample_weights, sample_inference,
}

abbrev requirements : UserRequirements
requirements = record {
  priority = RecommendationPriority.balanced;
  concurrent_users = 1;
  desired_context = 4096;
}

-- An estimate with a given status.
abbrev pub estimate_with : CompatibilityStatus → InferenceConfiguration → MemoryEstimate
estimate_with status cfg = record {
  is_gguf = true;
  inference_configuration = cfg;
  weights = sample_weights;
  kv_cache = unknown_kv_cache 4096 1 2 KvNote.no_config;
  runtime_overhead = estimate_overhead none 512 0;
  device_reserve = sample_weights.component;
  safety_margin = none;
  total_bytes = none;
  assessment = record {
    status = status;
    confidence = EstimationConfidence.high;
    target_device = TargetDevice.auto;
    effective_device = TargetDevice.gpu;
    available_vram_bytes = none;
    available_ram_bytes = none;
    ratio = none;
    reasons = [];
    warnings = [];
  };
  hardware_fit = none;
}

-- The longer name does not fit, the shorter needs offloading.
abbrev name_length : Option String → ℕ
name_length none = 0
name_length (some name) = length (codes name)

abbrev estimate_fn : InferenceConfiguration → MemoryEstimate
estimate_fn cfg =
    estimate_with
      (if leb 6 (name_length cfg.quantization)
        then CompatibilityStatus.tight
        else CompatibilityStatus.offloading_required)
      cfg

abbrev quantizations : List String
quantizations = "Q8_0" ∷ "q5_k_m" ∷ []

abbrev chosen_rung : Tried
chosen_rung = try_rung estimate_fn requirements none (rung_of "q5_k_m")

select_gguf_closest_example :
    distance (tried_status chosen_rung)
    ≤ distance (tried_status (try_rung estimate_fn requirements none (rung_of "Q8_0")))
unfolding select_gguf
select_gguf_closest_example =
    select_gguf_closest estimate_fn requirements none quantizations {chosen = chosen_rung}
      {rung = rung_of "Q8_0"} refl (Memᴰ.tail (Memᴰ.head refl))

abbrev chosen_precision : Tried
chosen_precision = try_precision estimate_fn requirements false WeightPrecision.bfloat16

select_transformers_closest_example :
    distance (tried_status chosen_precision)
    ≤ distance (
        tried_status
          (try_precision estimate_fn requirements (is_limited none) WeightPrecision.float16))
unfolding select_transformers
select_transformers_closest_example =
    select_transformers_closest estimate_fn requirements none (some "torch.bfloat16")
      {chosen = chosen_precision} {p = WeightPrecision.float16} refl (Memᴰ.tail (Memᴰ.head refl))

-- The estimate of the sample request, and the placement that it carries.
abbrev value : {A : Type 0} → A → Checked A → A
value other (Checked.ok a) = a
value other (Checked.raised e) = other

abbrev fallback_estimate : MemoryEstimate
fallback_estimate = estimate_with CompatibilityStatus.unknown sample_inference

abbrev request_estimate : MemoryEstimate
request_estimate = value fallback_estimate (
    estimate_sizes exact_floats false sample_weights (some sample_config) sample_machine
      sample_inference)

abbrev fit_or : HardwareFitResult → Option HardwareFitResult → HardwareFitResult
fit_or other none = other
fit_or other (some fit) = fit

abbrev request_fit : HardwareFitResult
request_fit =
    fit_or
      (analyze_discrete exact_floats sample_demand none 0 none
        HardwareMemoryTopology.discrete_memory none)
      request_estimate.hardware_fit

analyze_estimate_same_example :
    analyze_estimate exact_floats request_estimate sample_machine ≡ Checked.ok (some request_fit)
unfolding estimate_sizes jaull.Memory.KvCache.detect_exotic_architecture jaull.Base.lowers_to
    jaull.Hardware.available_accelerator_memory_bytes jaull.Memory.KvCache.apply_sliding_window
    jaull.Memory.KvCache.dtype_bytes jaull.Fit.Offload.try_gpu_offload
    jaull.Fit.Offload.search_ceiling
analyze_estimate_same_example =
    analyze_estimate_same exact_floats false sample_weights (some sample_config) sample_machine
      sample_inference {m = request_estimate} {fit = request_fit} refl refl
