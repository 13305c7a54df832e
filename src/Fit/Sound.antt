-- ===== src/Fit/Sound.antt =====
-- A placement that `_try_gpu_offload` returns keeps the promise of a partial offload.
use jaull.Base.{
  ℕ, ◌+◌, ◌*◌, ◌≤◌, ◌≡◌, Option, none, some, List, [], ◌∷◌, min, arith, ap, Option-cases,
  Bool-cases, ltb, inl, inr,
}
use jaull.Estimation.{
  HardwareFitPlacementMethod, HardwareFitOffloadDiagnostics, Warning, HardwareMemoryTopology,
  HardwareFitResult, TransformerBlockWeightDecomposition,
}
use jaull.Fit.Floats.{Floats, IsRounded}
use jaull.Fit.Placement.{Demand, OffloadPlacement, place}
use jaull.Fit.Search.{search_blocks}
use jaull.Fit.Offload.{
  Supply, WeightSplit, ram_budget, both_fit, gpu_block_weight, block_placement, block_result,
  non_block_bounds, search_ceiling, byte_placement, fits_vram, best_byte_placement,
  try_byte_offload, try_gpu_offload, decomposed, offload_result_from_placement, try_block_offload,
}
use jaull.Fit.Conserve.{IsExact, Balances, calculate_offload_placement-Balances}
use jaull.Fit.Loops.{search_blocks-Feasible, search_bytes_sound, admissible_parts}
use jaull.Fit.Ceiling.{block_placement_split}
use jaull.Fit.Promise.{IsPlacement}
use jaull.Fit.Monotone.{calculate_lem, calculate_offload_placement_mono}

module _ (fl : Floats) (r : IsRounded fl) (d : Demand) (x : IsExact d) where
  -- Whatever the block loop builds balances, and its system-memory budget is no less than the
  -- placement's own requirement.
  block_placement-Balances :
      (t per : ℕ) (split : Option WeightSplit) (n : ℕ) {p : OffloadPlacement}
      → block_placement fl d t per split n ≡ some p
      → Balances d p × (p.ram_required_bytes ≤ ram_budget p)
  unfolding block_placement ram_budget place non_block_bounds
  block_placement-Balances t per none n {p} e =
      let w = min d.weights_bytes (n * per) in
      let balanced = calculate_offload_placement-Balances fl r d (some t) (some n) w x e in
      let (_, _, here) = calculate_lem fl d (some t) (some n) w e in
      let plain : p.non_block_placement_bounds ≡ none =
        ap (λ y. y.non_block_placement_bounds) here in
      (balanced, ground arith)
  block_placement-Balances t per (some split) n {p} e =
      let (q, host, heavy, light, same) = block_placement_split fl r d t per split n e in
      let gb = gpu_block_weight split t n in
      let b =
        calculate_offload_placement-Balances fl r d (some t) (some n) (gb + split.non_block_bytes) x
          heavy in
      let (_, less) =
        calculate_offload_placement_mono fl r d (some t) (some n) gb (gb + split.non_block_bytes) x
          (omega arith) light heavy in
      rw same (ground (arith, b), less)

  offload_result-IsPlacement :
      (s : Supply) (p : OffloadPlacement) (method : HardwareFitPlacementMethod)
      (topology : HardwareMemoryTopology) (warnings : List Warning)
      (diagnostics : Option HardwareFitOffloadDiagnostics)
      → Balances d p
      → p.gpu_required_bytes ≤ s.available_vram
      → p.ram_required_bytes ≤ s.available_ram
      → IsPlacement d topology
          (some s.available_vram)
          s.available_ram
          (offload_result_from_placement d s p method topology warnings diagnostics)
  unfolding offload_result_from_placement
  offload_result-IsPlacement s p method topology warnings diagnostics b gpu ram = ground (arith, b)

  -- A block placement that is returned conserves the demand and fits both pools.
  pub try_block_offload-IsPlacement :
      (s : Supply) (t : ℕ) (topology : HardwareMemoryTopology) (split : Option WeightSplit)
      {fit : HardwareFitResult}
      → try_block_offload fl d s t topology split ≡ some fit
      → IsPlacement d topology (some s.available_vram) s.available_ram fit
  unfolding try_block_offload both_fit
  try_block_offload-IsPlacement s t topology split {fit} e =
      let per = fl.ceil_quot d.weights_bytes t in
      elim (Option-cases (search_ceiling fl d s t per split)) [
        | inl nothing ↦ absurd (ground arith)
        | inr (c, e1) ↦
            elim (Option-cases
              (search_blocks (block_placement fl d t per split) (both_fit s) c none)) [
                | inl nothing ↦ absurd (ground arith)
                | inr ((n, p, rejected), e2) ↦
                    let (built, fits, _, _) =
                      search_blocks-Feasible (block_placement fl d t per split) (both_fit s) c none
                        e2 in
                    let (b, budget) = block_placement-Balances t per split n built in
                    let same : block_result fl d s topology c (n, p, rejected) ≡ fit =
                      ground arith in
                    rw (← same) (
                      offload_result-IsPlacement s p _ topology _ _ b (ground arith) (ground arith))
              ]
      ]

  -- So does a placement by bytes.
  pub try_byte_offload-IsPlacement :
      (s : Supply) (t : Option ℕ) (topology : HardwareMemoryTopology) {fit : HardwareFitResult}
      → try_byte_offload fl d s t topology ≡ some fit
      → IsPlacement d topology (some s.available_vram) s.available_ram fit
  unfolding try_byte_offload best_byte_placement
  try_byte_offload-IsPlacement s t topology {fit} e =
      elim (Option-cases (best_byte_placement fl d s t)) [
        | inl nothing ↦ absurd (ground arith)
        | inr (p, e1) ↦
            let (n, found) =
              search_bytes_sound (byte_placement fl d t) (fits_vram fl d s) _ 1 _ none (λ q h. cc)
                e1 in
            let (built, fits) =
              admissible_parts (byte_placement fl d t) (fits_vram fl d s) n found in
            let result : offload_result_from_placement d s p
                  HardwareFitPlacementMethod.estimated_bytes topology
                  (Warning.block_count_unavailable ∷ []) none
                ≡ fit =
              ground arith in
            rw (← result) (
              offload_result-IsPlacement s p _ topology _ none
                (calculate_offload_placement-Balances fl r d t none n x built) (ground arith)
                (ground arith))
      ]

  pub try_gpu_offload-IsPlacement :
      (s : Supply) (blocks : Option ℕ) (topology : HardwareMemoryTopology)
      (w : Option TransformerBlockWeightDecomposition) {fit : HardwareFitResult}
      → try_gpu_offload fl d s blocks topology w ≡ some fit
      → IsPlacement d topology (some s.available_vram) s.available_ram fit
  unfolding try_gpu_offload
  try_gpu_offload-IsPlacement s none topology w e = try_byte_offload-IsPlacement s none topology e
  try_gpu_offload-IsPlacement s (some t) topology w e = elim (Bool-cases (ltb 0 t)) [
    | inl valid ↦ try_block_offload-IsPlacement s t topology (decomposed w) (ground arith)
    | inr invalid ↦ try_byte_offload-IsPlacement s (some t) topology (ground arith)
  ]
