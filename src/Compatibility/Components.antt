-- ===== src/Compatibility/Components.antt =====
-- The assessment of separate memory components: `assess_components_with_fit` and
-- `_assessment_from_fit` of src/jaull/estimator/compatibility.py.
use jaull.Base.{
  ℕ, ◌*◌, Bool, true, false, not, Option, none, some, [], ◌∷◌, is_some, ltb, ◌==◌, if◌then◌else◌,
}
use jaull.Hardware.{HardwareProfile}
use jaull.Inference.{TargetDevice}
use jaull.Estimation.{
  EstimationConfidence, CompatibilityStatus, CompatibilityAssessment, AssessmentReason, Ratio,
  HardwareFitMode, HardwareFitPlacementMethod, HardwareFitResult, NonBlockPlacementBounds,
  TransformerBlockWeightDecomposition,
}
use jaull.Fit.Floats.{Floats}
use jaull.Fit.Placement.{Demand}
use jaull.Fit.Analyze.{Checked, ◌>>=◌, analyze_components}
use jaull.Compatibility.{ratio_of, status_from_ratio, summary, assess}

-- `_ratio`: 1.0 where the capacity is unknown or zero.
unfoldable pub ratio_to : ℕ → Option ℕ → Ratio
ratio_to need none = ratio_of 1 1
ratio_to need (some capacity) = if capacity == 0 then ratio_of 1 1 else ratio_of need capacity

-- `b > a`, by cross-multiplication.
exceeds : Ratio → Ratio → Bool
exceeds b a = ltb (a.need * b.capacity) (b.need * a.capacity)

-- `_max_known_ratio` of two pairs.
unfoldable pub max_known_ratio : Option ℕ → Option ℕ → Option ℕ → Option ℕ → Option Ratio
unfolding ratio_to exceeds
max_known_ratio none c none c' = none
max_known_ratio (some need) c none c' = some (ratio_to need c)
max_known_ratio none c (some need') c' = some (ratio_to need' c')
max_known_ratio (some need) c (some need') c' =
    let a = ratio_to need c in let b = ratio_to need' c' in some (if exceeds b a then b else a)

-- The RAM budget of an offload: the upper bound where the non-block weights are of unknown place.
ram_budget : Option NonBlockPlacementBounds → Option ℕ → Option ℕ
ram_budget none required = required
ram_budget (some bounds) required = some bounds.ram_required_max_bytes

offload_confidence : HardwareFitPlacementMethod → EstimationConfidence
offload_confidence HardwareFitPlacementMethod.transformer_blocks = EstimationConfidence.medium
offload_confidence _ = EstimationConfidence.low

-- A mode that fits one pool; `none` is a failed `assert required is not None`.
unfoldable pub single_pool :
    HardwareFitResult
    → TargetDevice
    → TargetDevice
    → Option ℕ
    → Option ℕ
    → Option CompatibilityAssessment
unfolding ratio_to status_from_ratio summary
single_pool fit target effective none capacity = none
single_pool fit target effective (some required) capacity =
    let ratio = ratio_to required capacity in
    some (
      summary (status_from_ratio ratio) EstimationConfidence.high target effective
        fit.available_vram_bytes fit.available_ram_bytes (some ratio)
        (AssessmentReason.of_fit fit.reason ∷ []) fit.warnings)

unfoldable pub assessment_in_mode :
    HardwareFitMode → HardwareFitResult → TargetDevice → Option CompatibilityAssessment
unfolding single_pool max_known_ratio ram_budget offload_confidence summary
assessment_in_mode HardwareFitMode.gpu_resident fit target =
    single_pool fit target TargetDevice.gpu fit.gpu_required_bytes fit.available_vram_bytes
assessment_in_mode HardwareFitMode.gpu_offload fit target = some (
    summary CompatibilityStatus.offloading_required (offload_confidence fit.placement_method) target
      TargetDevice.gpu fit.available_vram_bytes fit.available_ram_bytes
      (max_known_ratio fit.gpu_required_bytes fit.available_vram_bytes
        (ram_budget fit.non_block_placement_bounds fit.ram_required_bytes) fit.available_ram_bytes)
      (AssessmentReason.of_fit fit.reason ∷ []) fit.warnings)
assessment_in_mode HardwareFitMode.cpu_ram fit target =
    single_pool fit target TargetDevice.cpu fit.ram_required_bytes fit.available_ram_bytes
assessment_in_mode HardwareFitMode.too_large fit target = some (
    summary CompatibilityStatus.insufficient EstimationConfidence.high target TargetDevice.cpu
      fit.available_vram_bytes fit.available_ram_bytes none
      (AssessmentReason.of_fit fit.reason ∷ []) fit.warnings)

unfoldable pub assessment_from_fit :
    HardwareFitResult → TargetDevice → Option CompatibilityAssessment
unfolding assessment_in_mode
assessment_from_fit fit target = assessment_in_mode fit.mode fit target

-- `fit` is none where the analyzer did not run; `assessment` is none where an assertion failed.
pub record ComponentAssessment : Type 0 where
  pub assessment : Option CompatibilityAssessment
  pub fit : Option HardwareFitResult

-- The memory components of a request, before any of them is known to be there.
pub record Components : Type 0 where
  pub weights_bytes : Option ℕ
  pub kv_cache_bytes : Option ℕ
  pub overhead_bytes : Option ℕ
  pub device_reserve_bytes : ℕ
  pub safety_margin_bytes : ℕ
  pub total_bytes : Option ℕ
  pub total_transformer_blocks : Option ℕ

-- All three components, where each is known.
unfoldable pub demand_of : Components → Option ℕ → Option ℕ → Option ℕ → Option Demand
demand_of c (some weights) (some kv_cache) (some overhead) = some (record {
  weights_bytes = weights;
  kv_cache_bytes = kv_cache;
  overhead_bytes = overhead;
  device_reserve_bytes = c.device_reserve_bytes;
  safety_margin_bytes = c.safety_margin_bytes;
})
demand_of c _ _ _ = none

missing_assessment : Components → HardwareProfile → TargetDevice → CompatibilityAssessment
unfolding assess
missing_assessment c hardware target =
    let unknown = assess none hardware target in
    record {
      status = unknown.status;
      confidence = unknown.confidence;
      target_device = unknown.target_device;
      effective_device = unknown.effective_device;
      available_vram_bytes = unknown.available_vram_bytes;
      available_ram_bytes = unknown.available_ram_bytes;
      ratio = unknown.ratio;
      reasons =
          AssessmentReason.missing_components (not (is_some c.weights_bytes))
            (not (is_some c.kv_cache_bytes)) (not (is_some c.overhead_bytes))
          ∷ [];
      warnings = unknown.warnings;
    }

abbrev pub is_auto : TargetDevice → Bool
is_auto TargetDevice.auto = true
is_auto _ = false

unfoldable pub assess_components_with_fit :
    Floats
    → Components
    → HardwareProfile
    → TargetDevice
    → Option TransformerBlockWeightDecomposition
    → Checked ComponentAssessment
unfolding demand_of missing_assessment assessment_from_fit analyze_components assess
assess_components_with_fit fl c hardware target weight_decomposition =
    elim (demand_of c c.weights_bytes c.kv_cache_bytes c.overhead_bytes) [
      | none ↦
          Checked.ok
            (record { assessment = some (missing_assessment c hardware target); fit = none })
      | some demand ↦
          if not (is_auto target)
          then Checked.ok
              (record { assessment = some (assess c.total_bytes hardware target); fit = none })
          else do
            fit ←
                analyze_components fl demand hardware c.total_transformer_blocks none
                  weight_decomposition
            Checked.ok (record { assessment = assessment_from_fit fit target; fit = some fit })
    ]
