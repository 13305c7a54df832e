-- ===== src/Fit/Outcome.antt =====
-- Every outcome of the analysis is sound.
use jaull.Base.{
  refl, ℕ, ◌≡◌, Option, none, some, List, [], arith, Option-cases, Bool-cases, leb, inl, inr,
}
use jaull.Hardware.{HardwareProfile, available_accelerator_memory_bytes}
use jaull.Estimation.{
  HardwareMemoryTopology, HardwareFitResult, TransformerBlockWeightDecomposition, Warning,
}
use jaull.Fit.Floats.{Floats, IsRounded}
use jaull.Fit.Placement.{Demand}
use jaull.Fit.Offload.{Supply, decomposed, try_gpu_offload}
use jaull.Fit.Results.{gpu_required_if_resident, analyze_unified_memory}
use jaull.Fit.Analyze.{
  Checked, >>=-eq-ok, memory_topology, merge_block_counts, check_decomposition, host_or_nothing,
  analyze_discrete, analyze_components, planning_warnings,
}
use jaull.Fit.Conserve.{IsExact}
use jaull.Fit.Promise.{IsPlacement}
use jaull.Fit.Sound.{try_gpu_offload-IsPlacement}

module _ (fl : Floats) (r : IsRounded fl) (d : Demand) (x : IsExact d) where
  host_or_nothing-IsPlacement :
      (vram : Option ℕ) (ram : ℕ) (blocks : Option ℕ) (warnings : List Warning)
      → IsPlacement d HardwareMemoryTopology.discrete_memory vram ram
          (host_or_nothing d vram ram blocks HardwareMemoryTopology.discrete_memory warnings)
  unfolding host_or_nothing
  host_or_nothing-IsPlacement vram ram blocks warnings = ground arith

  -- On discrete memory every outcome conserves the demand and keeps the promise of its mode.
  analyze_discrete-IsPlacement :
      (vram : Option ℕ) (ram : ℕ) (blocks : Option ℕ)
      (w : Option TransformerBlockWeightDecomposition)
      → IsPlacement d HardwareMemoryTopology.discrete_memory vram ram
          (analyze_discrete fl d vram ram blocks HardwareMemoryTopology.discrete_memory w)
  unfolding analyze_discrete
  analyze_discrete-IsPlacement none ram blocks w = host_or_nothing-IsPlacement none ram blocks []
  analyze_discrete-IsPlacement (some vram) ram blocks w =
      let supply : Supply = record { available_vram = vram; available_ram = ram } in
      elim (Bool-cases (leb (gpu_required_if_resident d) vram)) [
        | inl resident ↦ ground arith
        | inr partial ↦
            elim (Option-cases
              (try_gpu_offload fl d supply blocks HardwareMemoryTopology.discrete_memory w)) [
                | inl nothing ↦
                    rw (partial, nothing, analyze_discrete)
                      (host_or_nothing-IsPlacement (some vram) ram blocks
                        (planning_warnings (decomposed w)))
                | inr (fit, e) ↦
                    rw (partial, e, analyze_discrete)
                      (try_gpu_offload-IsPlacement fl r d x supply blocks
                        HardwareMemoryTopology.discrete_memory w e)
              ]
      ]

  unified-IsPlacement :
      (ram : ℕ) (blocks : Option ℕ)
      → IsPlacement d HardwareMemoryTopology.unified_memory none ram
          (analyze_unified_memory d ram blocks)
  unfolding analyze_unified_memory
  unified-IsPlacement ram blocks = ground arith

  -- Memory is unified only where no accelerator has a budget of its own.
  unified_vram :
      (hardware : HardwareProfile)
      → memory_topology hardware ≡ HardwareMemoryTopology.unified_memory
      → available_accelerator_memory_bytes hardware ≡ none
  unfolding memory_topology
  unified_vram hardware unified =
      elim (Option-cases (available_accelerator_memory_bytes hardware)) [
        | inl nothing ↦ nothing
        | inr (bytes, known) ↦ absurd (ground (arith, known))
      ]

  topology_cases :
      (hardware : HardwareProfile) (t : Option ℕ) (w : Option TransformerBlockWeightDecomposition)
      (topology : HardwareMemoryTopology) {fit : HardwareFitResult}
      → Checked.ok (elim topology [
        | HardwareMemoryTopology.unified_memory ↦
            analyze_unified_memory d hardware.memory.available_bytes t
        | HardwareMemoryTopology.discrete_memory ↦
            analyze_discrete fl d
              (available_accelerator_memory_bytes hardware)
              hardware.memory.available_bytes
              t
              HardwareMemoryTopology.discrete_memory
              w
      ])
        ≡ Checked.ok fit
      → memory_topology hardware ≡ topology
      → IsPlacement d topology
          (available_accelerator_memory_bytes hardware)
          hardware.memory.available_bytes
          fit
  topology_cases hardware t w HardwareMemoryTopology.unified_memory {fit} e unified =
      let same : analyze_unified_memory d hardware.memory.available_bytes t ≡ fit = ground arith in
      rw (← same, unified_vram hardware unified) (unified-IsPlacement _ t)
  topology_cases hardware t w HardwareMemoryTopology.discrete_memory {fit} e discrete =
      let same : analyze_discrete fl d (available_accelerator_memory_bytes hardware)
            hardware.memory.available_bytes t HardwareMemoryTopology.discrete_memory w
          ≡ fit =
        ground arith in
      rw (← same) (analyze_discrete-IsPlacement _ _ t w)

  -- Whatever `analyze_components` returns is about the weights, KV cache, overhead, reserve and margin
  -- of the demand and about the detected memory: it names the topology, the accelerator memory and the
  -- available RAM of the hardware. It splits weights, KV cache, overhead and margin between the pools
  -- with no byte lost, and keeps the promise of its mode: the budgets it claims to fit are the sums of
  -- their shares and do fit, and the budget of a result that is too large is the sum of its shares and
  -- exceeds the RAM.
  pub analyze_components-IsPlacement :
      (hardware : HardwareProfile) (blocks layers : Option ℕ)
      (w : Option TransformerBlockWeightDecomposition) {fit : HardwareFitResult}
      → analyze_components fl d hardware blocks layers w ≡ Checked.ok fit
      → IsPlacement d
          (memory_topology hardware)
          (available_accelerator_memory_bytes hardware)
          hardware.memory.available_bytes
          fit
  unfolding analyze_components
  analyze_components-IsPlacement hardware blocks layers w {fit} e =
      let (merged, _, e1) = >>=-eq-ok (merge_block_counts blocks layers) _ e in
      let (t, _, e2) = >>=-eq-ok (check_decomposition d.weights_bytes merged w) _ e1 in
      topology_cases hardware t w (memory_topology hardware) e2 refl
