-- ===== src/Compatibility/Outcome.antt =====
-- The assessment agrees with the placement it summarises.
use jaull.Base.{
  ℕ, ◌≡◌, Bool, true, false, Option, none, some, arith, refl, Bool-cases, Option-cases, inl, inr,
}
use jaull.Hardware.{HardwareProfile}
use jaull.Inference.{TargetDevice}
use jaull.Estimation.{
  CompatibilityStatus, CompatibilityAssessment, HardwareFitMode, HardwareFitResult,
  HardwareMemoryTopology, TransformerBlockWeightDecomposition,
}
use jaull.Fit.Floats.{Floats, IsRounded}
use jaull.Fit.Conserve.{IsExact}
use jaull.Fit.Placement.{Demand}
use jaull.Fit.Promise.{IsSound, Promise, Within}
use jaull.Fit.Analyze.{Checked, ◌>>=◌, >>=-eq-ok, analyze_components}
use jaull.Fit.Outcome.{analyze_components-IsPlacement}
use jaull.Compatibility.{status_from_ratio, summary}
use jaull.Compatibility.Components.{
  assessment_from_fit, assessment_in_mode, single_pool, ratio_to, ComponentAssessment, Components,
  demand_of, assess_components_with_fit, is_auto,
}

abbrev pub fits_one_pool : CompatibilityStatus → Bool
fits_one_pool CompatibilityStatus.comfortable = true
fits_one_pool CompatibilityStatus.compatible = true
fits_one_pool CompatibilityStatus.tight = true
fits_one_pool _ = false

-- The status and the device that each mode must be reported with.
abbrev pub Agrees : HardwareFitMode → CompatibilityAssessment → Type 0
Agrees HardwareFitMode.gpu_resident a =
    (fits_one_pool a.status ≡ true) × (a.effective_device ≡ TargetDevice.gpu)
Agrees HardwareFitMode.gpu_offload a =
    (a.status ≡ CompatibilityStatus.offloading_required) × (a.effective_device ≡ TargetDevice.gpu)
Agrees HardwareFitMode.cpu_ram a =
    (fits_one_pool a.status ≡ true) × (a.effective_device ≡ TargetDevice.cpu)
Agrees HardwareFitMode.too_large a =
    (a.status ≡ CompatibilityStatus.insufficient) × (a.effective_device ≡ TargetDevice.cpu)

-- A requirement within its pool is at most the whole of it.
single_pool_fits :
    (fit : HardwareFitResult) (target effective : TargetDevice) (required available : Option ℕ)
    → Within required available
    → (a : CompatibilityAssessment) × (single_pool fit target effective required available ≡ some a)
      × ((fits_one_pool a.status ≡ true) × (a.effective_device ≡ effective))
unfolding single_pool status_from_ratio summary ratio_to
single_pool_fits fit target effective (some required) (some available) h =
    (_, refl, (ground arith, refl))
single_pool_fits fit target effective none available h = elim h [ ]
single_pool_fits fit target effective (some required) none h = elim h [ ]

assessment_in_mode-Agrees :
    (mode : HardwareFitMode) (topology : HardwareMemoryTopology) (fit : HardwareFitResult)
    (target : TargetDevice)
    → Promise mode topology fit
    → (a : CompatibilityAssessment) × (assessment_in_mode mode fit target ≡ some a) × Agrees mode a
unfolding assessment_in_mode summary
assessment_in_mode-Agrees HardwareFitMode.gpu_resident topology fit target (_, _, within) =
    single_pool_fits fit target TargetDevice.gpu fit.gpu_required_bytes fit.available_vram_bytes
      within
assessment_in_mode-Agrees HardwareFitMode.gpu_offload topology fit target promise =
    (_, refl, (refl, refl))
assessment_in_mode-Agrees HardwareFitMode.cpu_ram HardwareMemoryTopology.discrete_memory fit target
      (_, _, within) =
    single_pool_fits fit target TargetDevice.cpu fit.ram_required_bytes fit.available_ram_bytes
      within
assessment_in_mode-Agrees HardwareFitMode.cpu_ram HardwareMemoryTopology.unified_memory fit target
      (_, _, within) =
    single_pool_fits fit target TargetDevice.cpu fit.ram_required_bytes fit.available_ram_bytes
      within
assessment_in_mode-Agrees HardwareFitMode.too_large topology fit target promise =
    (_, refl, (refl, refl))

-- A sound placement is always summarised, its assertions on known budgets hold, and the status and
-- the effective device are those of its mode.
pub assessment_from_fit-Agrees :
    (fit : HardwareFitResult) (target : TargetDevice)
    → IsSound fit
    → (a : CompatibilityAssessment) × (assessment_from_fit fit target ≡ some a) × Agrees fit.mode a
unfolding assessment_from_fit
assessment_from_fit-Agrees fit target sound =
    assessment_in_mode-Agrees fit.mode fit.memory_topology fit target sound.promise

-- What is reported of a request: an assessment, and one that agrees with the placement if the
-- placement was analysed.
abbrev pub Reports : Option HardwareFitResult → Option CompatibilityAssessment → Type 0
Reports fit none = ⊥
Reports none (some a) = Unit
Reports (some fit) (some a) = IsSound fit × Agrees fit.mode a

assessment_from_fit-Reports :
    (fit : HardwareFitResult) (target : TargetDevice)
    → IsSound fit
    → Reports (some fit) (assessment_from_fit fit target)
assessment_from_fit-Reports fit target sound =
    let (a, e, agrees) = assessment_from_fit-Agrees fit target sound in rw (e) ((sound, agrees))

module _ (fl : Floats) (r : IsRounded fl) where
  -- Whatever `assess_components_with_fit` returns has an assessment; if the placement was analysed,
  -- it is sound and the status and the effective device are those of its mode.
  pub assess_components_with_fit-Reports :
      (c : Components) (hardware : HardwareProfile) (target : TargetDevice)
      (w : Option TransformerBlockWeightDecomposition)
      → ((d : Demand)
          → demand_of c c.weights_bytes c.kv_cache_bytes c.overhead_bytes ≡ some d
          → IsExact d)
      → {result : ComponentAssessment}
      → assess_components_with_fit fl c hardware target w ≡ Checked.ok result
      → Reports result.fit result.assessment
  unfolding assess_components_with_fit
  assess_components_with_fit-Reports c hardware target w exact {result} e =
      elim (Option-cases (demand_of c c.weights_bytes c.kv_cache_bytes c.overhead_bytes)) [
        | inl missing ↦ ground arith
        | inr (d, known) ↦ elim (Bool-cases (is_auto target)) [
          | inr pinned ↦ ground arith
          | inl auto ↦
              let run : (analyze_components fl d hardware c.total_transformer_blocks none w
                    >>= (λ fit.
                        Checked.ok
                          (record { assessment = assessment_from_fit fit target; fit = some fit })))
                  ≡ Checked.ok result =
                ground arith in
              let (fit, found, made) =
                >>=-eq-ok (analyze_components fl d hardware c.total_transformer_blocks none w) _
                  run in
              let placed =
                analyze_components-IsPlacement fl r d (exact d known) hardware
                  c.total_transformer_blocks none w found in
              let same : (record { assessment = assessment_from_fit fit target; fit = some fit })
                  ≡ result =
                ground (arith, made) in
              rw (← same) (assessment_from_fit-Reports fit target placed.sound)
        ]
      ]
