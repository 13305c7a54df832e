-- ===== src/Fit/Chosen.antt =====
-- Which mode the analysis chooses, described without its search: resident if the whole model fits
-- VRAM, else offload if any partial placement fits both pools, else system memory, else nothing.
use jaull.Base.{
  ℕ, zero, suc, ◌^◌, ◌≤◌, ◌<◌, ◌≡◌, Option, none, some, arith, Option-cases, Bool-cases, leb, inl,
  inr,
}
use jaull.Estimation.{
  HardwareFitMode, HardwareMemoryTopology, HardwareFitResult, TransformerBlockWeightDecomposition,
}
use jaull.Fit.Floats.{Floats, IsRounded}
use jaull.Fit.Placement.{Demand}
use jaull.Fit.Search.{search_blocks}
use jaull.Fit.Offload.{
  Supply, WeightSplit, decomposed, both_fit, fits_vram, block_placement, byte_placement,
  best_byte_placement, search_ceiling, try_block_offload, try_byte_offload, try_gpu_offload,
  offload_result_from_placement,
}
use jaull.Fit.Results.{gpu_required_if_resident, cpu_required}
use jaull.Fit.Analyze.{host_or_nothing, analyze_discrete, planning_warnings}
use jaull.Fit.Conserve.{IsExact}
use jaull.Fit.Loops.{Feasible, search_blocks-Feasible, search_bytes_sound, admissible_parts}
use jaull.Fit.Ceiling.{IsCovered}
use jaull.Fit.Largest.{Divides, try_block_offload_largest}
use jaull.Fit.Bytes.{try_byte_offload_largest}

-- The partial placement of size `m`, counted in blocks or, with no block count, in bytes.
abbrev pub OffloadFits :
    Floats → Demand → Supply → Option ℕ → Option TransformerBlockWeightDecomposition → ℕ → Type 0
OffloadFits fl d s none w m =
    (f : Feasible (byte_placement fl d none) (fits_vram fl d s) m) × (f.placement.ram_required_bytes
      ≤ s.available_ram)
OffloadFits fl d s (some zero) w m =
    (f : Feasible (byte_placement fl d (some zero)) (fits_vram fl d s) m)
    × (f.placement.ram_required_bytes ≤ s.available_ram)
OffloadFits fl d s (some (suc t)) w m =
    (0 < m)
    × Feasible (block_placement fl d (suc t) (fl.ceil_quot d.weights_bytes (suc t)) (decomposed w))
        (both_fit s) m

-- What is asked of the block count, where there is one.
abbrev pub Covered : Demand → Option ℕ → Type 0
Covered d none = Unit
Covered d (some t) = IsCovered d t

-- The specification of the chosen mode.
pub data Chosen (fl : Floats) (d : Demand) (s : Supply) (blocks : Option ℕ)
    (w : Option TransformerBlockWeightDecomposition) : HardwareFitMode → Type 0 where
  resident :
      gpu_required_if_resident d ≤ s.available_vram
      → Chosen fl d s blocks w HardwareFitMode.gpu_resident
  offload :
      s.available_vram < gpu_required_if_resident d
      → (m : ℕ) → OffloadFits fl d s blocks w m
      → Chosen fl d s blocks w HardwareFitMode.gpu_offload
  cpu_ram :
      s.available_vram < gpu_required_if_resident d
      → ((m : ℕ) → ¬ OffloadFits fl d s blocks w m)
      → cpu_required d ≤ s.available_ram
      → Chosen fl d s blocks w HardwareFitMode.cpu_ram
  too_large :
      s.available_vram < gpu_required_if_resident d
      → ((m : ℕ) → ¬ OffloadFits fl d s blocks w m)
      → s.available_ram < cpu_required d
      → Chosen fl d s blocks w HardwareFitMode.too_large

module _ (fl : Floats) (r : IsRounded fl) (d : Demand) (x : IsExact d) where
  -- A partial placement that fits makes the search return something.
  try_gpu_offload_finds :
      (s : Supply) (blocks : Option ℕ) (topology : HardwareMemoryTopology)
      (w : Option TransformerBlockWeightDecomposition) (m : ℕ)
      → d.weights_bytes ≤ 2 ^ 53
      → Covered d blocks
      → Divides d (decomposed w)
      → OffloadFits fl d s blocks w m
      → ¬ (try_gpu_offload fl d s blocks topology w ≡ none)
  unfolding try_gpu_offload
  try_gpu_offload_finds s none topology w m exact covered sum (f, ram) e =
      let (_, found, _) = try_byte_offload_largest fl r d x s none topology m f ram in cc
  try_gpu_offload_finds s (some zero) topology w m exact covered sum (f, ram) e =
      let (_, found, _) = try_byte_offload_largest fl r d x s (some zero) topology m f ram in cc
  try_gpu_offload_finds s (some (suc t)) topology w m exact covered sum (pos, f) e =
      let (_, _, found, _, _) =
        try_block_offload_largest fl r d s (suc t) topology (decomposed w) m (omega arith) pos exact
          covered sum f in
      ground (arith)

  byte_offload_fits :
      (s : Supply) (t : Option ℕ) (topology : HardwareMemoryTopology) {fit : HardwareFitResult}
      → try_byte_offload fl d s t topology ≡ some fit
      → (fit.mode ≡ HardwareFitMode.gpu_offload)
        × (m : ℕ) × (f : Feasible (byte_placement fl d t) (fits_vram fl d s) m)
        × (f.placement.ram_required_bytes ≤ s.available_ram)
  unfolding try_byte_offload best_byte_placement offload_result_from_placement fits_vram
  byte_offload_fits s t topology {fit} e = elim (Option-cases (best_byte_placement fl d s t)) [
    | inl nothing ↦ absurd (ground arith)
    | inr (p, e1) ↦
        let (n, found) =
          search_bytes_sound (byte_placement fl d t) (fits_vram fl d s) _ 1 _ none (λ q h. cc) e1 in
        let (built, fits) = admissible_parts (byte_placement fl d t) (fits_vram fl d s) n found in
        (ground arith, n, record { placement = p; built = built; fitting = fits }, ground arith)
  ]

  block_offload_fits :
      (s : Supply) (t : ℕ) (topology : HardwareMemoryTopology) (split : Option WeightSplit)
      {fit : HardwareFitResult}
      → try_block_offload fl d s t topology split ≡ some fit
      → (fit.mode ≡ HardwareFitMode.gpu_offload)
        × (m : ℕ) × (0 < m)
        × Feasible (block_placement fl d t (fl.ceil_quot d.weights_bytes t) split) (both_fit s) m
  unfolding try_block_offload offload_result_from_placement
  block_offload_fits s t topology split {fit} e =
      let per = fl.ceil_quot d.weights_bytes t in
      elim (Option-cases (search_ceiling fl d s t per split)) [
        | inl nothing ↦ absurd (ground arith)
        | inr (c, e1) ↦
            elim (Option-cases
              (search_blocks (block_placement fl d t per split) (both_fit s) c none)) [
                | inl nothing ↦ absurd (ground arith)
                | inr ((n, p, rejected), e2) ↦
                    let (built, fits, pos, _) = search_blocks-Feasible _ (both_fit s) c none e2 in
                    (ground arith, n, pos, record { placement = p; built = built; fitting = fits })
              ]
      ]

  try_gpu_offload_fits :
      (s : Supply) (blocks : Option ℕ) (topology : HardwareMemoryTopology)
      (w : Option TransformerBlockWeightDecomposition) {fit : HardwareFitResult}
      → try_gpu_offload fl d s blocks topology w ≡ some fit
      → (fit.mode ≡ HardwareFitMode.gpu_offload) × (m : ℕ) × OffloadFits fl d s blocks w m
  unfolding try_gpu_offload
  try_gpu_offload_fits s none topology w e =
      let (mode, m, f, ram) = byte_offload_fits s none topology e in (mode, m, (f, ram))
  try_gpu_offload_fits s (some zero) topology w e =
      let (mode, m, f, ram) = byte_offload_fits s (some zero) topology e in (mode, m, (f, ram))
  try_gpu_offload_fits s (some (suc t)) topology w {fit} e =
      let (mode, m, pos, f) =
        block_offload_fits s (suc t) topology (decomposed w) {fit = fit} (ground arith) in
      (mode, m, (pos, f))

  host_Chosen :
      (s : Supply) (blocks : Option ℕ) (w : Option TransformerBlockWeightDecomposition)
      → s.available_vram < gpu_required_if_resident d
      → ((m : ℕ) → ¬ OffloadFits fl d s blocks w m)
      → Chosen fl d s blocks w
          (host_or_nothing d
            (some s.available_vram)
            s.available_ram
            blocks
            HardwareMemoryTopology.discrete_memory
            (planning_warnings (decomposed w))).mode
  unfolding host_or_nothing
  host_Chosen s blocks w above none_fits =
      elim (Bool-cases (leb (cpu_required d) s.available_ram)) [
        | inl fits ↦ rw (fits, host_or_nothing) (Chosen.cpu_ram above none_fits (ground arith))
        | inr over ↦ rw (over, host_or_nothing) (Chosen.too_large above none_fits (ground arith))
      ]

  -- The mode that the analysis reports on a machine with known VRAM is the specified one: resident
  -- exactly where everything fits VRAM, offload exactly where only some partial placement fits
  -- both pools, and system memory or nothing only where no partial placement of any size fits.
  pub analyze_discrete-Chosen :
      (s : Supply) (blocks : Option ℕ) (w : Option TransformerBlockWeightDecomposition)
      → d.weights_bytes ≤ 2 ^ 53
      → Covered d blocks
      → Divides d (decomposed w)
      → Chosen fl d s blocks w
          (analyze_discrete fl d
            (some s.available_vram)
            s.available_ram
            blocks
            HardwareMemoryTopology.discrete_memory
            w).mode
  unfolding analyze_discrete
  analyze_discrete-Chosen s blocks w exact covered sum =
      elim (Bool-cases (leb (gpu_required_if_resident d) s.available_vram)) [
        | inl whole ↦ rw (whole, analyze_discrete) (Chosen.resident (ground arith))
        | inr partial ↦
            elim (Option-cases
              (try_gpu_offload fl d s blocks HardwareMemoryTopology.discrete_memory w)) [
                | inr (fit, e) ↦
                    let (mode, m, f) =
                      try_gpu_offload_fits s blocks HardwareMemoryTopology.discrete_memory w e in
                    rw (partial, e, analyze_discrete, mode) (Chosen.offload (ground arith) m f)
                | inl nothing ↦
                    let none_fits = λ (m : ℕ) (f : OffloadFits fl d s blocks w m).
                      try_gpu_offload_finds s blocks HardwareMemoryTopology.discrete_memory w m
                        exact covered sum f nothing in
                    rw (partial, nothing, analyze_discrete)
                      (host_Chosen s blocks w (ground arith) none_fits)
              ]
      ]
