-- ===== src/Compatibility.antt =====
-- The comparison of a memory requirement with the machine: src/jaull/estimator/compatibility.py.
-- A ratio is the pair of its integers. The thresholds 0.75, 0.9 and 1.0 are compared by
-- cross-multiplication: below 2 ^ 50 bytes the float quotient is on the same side of each of them.
pub mod Components
pub mod Status
pub mod Outcome
use jaull.Base.{
  ℕ, ◌+◌, ◌*◌, Bool, true, false, Option, none, some, List, [], ◌∷◌, is_some, ltb, leb, ◌==◌,
  if◌then◌else◌,
}
use jaull.Hardware.{HardwareProfile, available_accelerator_memory_bytes}
use jaull.Inference.{TargetDevice}
use jaull.Estimation.{
  EstimationConfidence, CompatibilityStatus, CompatibilityAssessment, AssessmentReason, Ratio,
  HardwareFitMode, HardwareFitPlacementMethod, HardwareFitResult, NonBlockPlacementBounds,
  TransformerBlockWeightDecomposition, Warning,
}
use jaull.Fit.Floats.{Floats}
use jaull.Fit.Placement.{Demand}
use jaull.Fit.Analyze.{Checked, ◌>>=◌, analyze_components}

abbrev pub ratio_of : ℕ → ℕ → Ratio
ratio_of need capacity = record { need = need; capacity = capacity }

-- `ratio <= percent / 100`
abbrev pub is_within : ℕ → Ratio → Bool
is_within percent ratio = leb (100 * ratio.need) (percent * ratio.capacity)

unfoldable pub status_from_ratio : Ratio → CompatibilityStatus
status_from_ratio ratio =
    if is_within 75 ratio
    then CompatibilityStatus.comfortable
    else if is_within 90 ratio
    then CompatibilityStatus.compatible
    else if is_within 100 ratio
    then CompatibilityStatus.tight
    else CompatibilityStatus.insufficient

-- The pools that `_assess_single` reports beside the one it compares with.
unfoldable pub vram_if_gpu : TargetDevice → ℕ → Option ℕ
vram_if_gpu TargetDevice.gpu capacity = some capacity
vram_if_gpu _ capacity = none

unfoldable pub ram_if_cpu : TargetDevice → ℕ → Option ℕ
ram_if_cpu TargetDevice.cpu capacity = some capacity
ram_if_cpu _ capacity = none

unfoldable pub prefixed : Option AssessmentReason → List AssessmentReason
prefixed none = AssessmentReason.uses_share ∷ []
prefixed (some reason) = reason ∷ AssessmentReason.uses_share ∷ []

unfoldable pub assess_single :
    TargetDevice → ℕ → ℕ → AssessmentReason → Option AssessmentReason → CompatibilityAssessment
unfolding status_from_ratio vram_if_gpu ram_if_cpu prefixed
assess_single device capacity need missing_reason reason_prefix =
    if capacity == 0
    then record {
      status = CompatibilityStatus.unknown;
      confidence = EstimationConfidence.unknown;
      target_device = device;
      effective_device = device;
      available_vram_bytes = none;
      available_ram_bytes = none;
      ratio = none;
      reasons = missing_reason ∷ [];
      warnings = [];
    }
    else record {
      status = status_from_ratio (ratio_of need capacity);
      confidence = EstimationConfidence.high;
      target_device = device;
      effective_device = device;
      available_vram_bytes = vram_if_gpu device capacity;
      available_ram_bytes = ram_if_cpu device capacity;
      ratio = some (ratio_of need capacity);
      reasons = prefixed reason_prefix;
      warnings = [];
    }

-- An assessment with one reason and both pools reported.
unfoldable pub summary :
    CompatibilityStatus
    → EstimationConfidence
    → TargetDevice
    → TargetDevice
    → Option ℕ
    → Option ℕ
    → Option Ratio
    → List AssessmentReason
    → List Warning
    → CompatibilityAssessment
summary status confidence target effective vram ram ratio reasons warnings = record {
  status = status;
  confidence = confidence;
  target_device = target;
  effective_device = effective;
  available_vram_bytes = vram;
  available_ram_bytes = ram;
  ratio = ratio;
  reasons = reasons;
  warnings = warnings;
}

-- `total_bytes / (ram if ram else 1)`
abbrev pub or_one : ℕ → ℕ
or_one n = if n == 0 then 1 else n

-- AUTO, without VRAM that covers the total or the rest of it.
unfoldable pub assess_ram : ℕ → Option ℕ → ℕ → CompatibilityAssessment
unfolding assess_single summary
assess_ram total vram ram =
    if leb total ram
    then assess_single TargetDevice.cpu ram total AssessmentReason.missing_ram (
        some (
          if is_some vram
          then AssessmentReason.no_gpu_capacity
          else AssessmentReason.no_gpu_detected))
    else summary CompatibilityStatus.insufficient EstimationConfidence.high TargetDevice.auto
        TargetDevice.cpu vram (some ram) (some (ratio_of total (or_one ram)))
        (AssessmentReason.exceeds_combined ∷ []) []

unfoldable pub assess_auto : ℕ → Option ℕ → ℕ → CompatibilityAssessment
unfolding assess_single summary assess_ram
assess_auto total none ram = assess_ram total none ram
assess_auto total (some vram) ram =
    if leb total vram
    then assess_single TargetDevice.gpu vram total AssessmentReason.missing_vram
        (some AssessmentReason.fits_in_vram)
    else if leb total (vram + ram)
    then summary CompatibilityStatus.offloading_required EstimationConfidence.low TargetDevice.auto
        TargetDevice.gpu (some vram) (some ram) (some (ratio_of total (vram + ram)))
        (AssessmentReason.does_not_fit_vram ∷ AssessmentReason.combined_would_cover ∷ [])
        (Warning.offloading_approximate ∷ [])
    else assess_ram total (some vram) ram

assess_gpu : ℕ → Option ℕ → ℕ → CompatibilityAssessment
unfolding assess_single summary
assess_gpu total none ram =
    summary CompatibilityStatus.insufficient EstimationConfidence.high TargetDevice.gpu
      TargetDevice.gpu none (some ram) none (AssessmentReason.no_gpu_memory ∷ []) []
assess_gpu total (some vram) ram =
    assess_single TargetDevice.gpu vram total AssessmentReason.missing_vram none

-- The device branches, for a known total.
unfoldable pub assess_total : ℕ → Option ℕ → ℕ → TargetDevice → CompatibilityAssessment
unfolding assess_single assess_gpu assess_auto
assess_total total vram ram TargetDevice.cpu =
    assess_single TargetDevice.cpu ram total AssessmentReason.missing_ram none
assess_total total vram ram TargetDevice.gpu = assess_gpu total vram ram
assess_total total vram ram TargetDevice.auto = assess_auto total vram ram

unfoldable pub assess : Option ℕ → HardwareProfile → TargetDevice → CompatibilityAssessment
unfolding summary assess_total
assess none hardware target =
    summary CompatibilityStatus.unknown EstimationConfidence.unknown target target
      (available_accelerator_memory_bytes hardware) (some hardware.memory.available_bytes) none
      (AssessmentReason.total_unknown ∷ []) []
assess (some total) hardware target =
    assess_total total (available_accelerator_memory_bytes hardware) hardware.memory.available_bytes
      target
