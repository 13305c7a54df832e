-- ===== src/Fit/Offload.antt =====
-- Partial offload: `_try_gpu_offload` and `_offload_result_from_placement`.
use jaull.Base.{
  ℕ, ◌+◌, ◌-◌, ◌*◌, ◌/◌, min, Bool, Option, none, some, List, [], ◌∷◌, ◌&&◌, ◌||◌, ltb, leb, ◌==◌,
  if◌then◌else◌, is_some,
}
use jaull.Estimation.{
  HardwareFitMode, HardwareMemoryTopology, HardwareFitPlacementMethod, HardwareFitResult,
  HardwareFitOffloadDiagnostics, NonBlockPlacementBounds, TransformerBlockWeightDecomposition,
  TransformerBlockWeightDecompositionMethod, Reason, Warning,
}
use jaull.Fit.Floats.{Floats}
use jaull.Fit.Placement.{Demand, OffloadPlacement, calculate_offload_placement, offload_candidate}
use jaull.Fit.Search.{search_blocks, search_bytes}

-- The memory that the detected hardware offers.
pub record Supply : Type 0 where
  pub available_vram : ℕ
  pub available_ram : ℕ

-- The two aggregates of a decomposition.
pub record WeightSplit : Type 0 where
  pub block_bytes : ℕ
  pub non_block_bytes : ℕ

-- The decomposition, where it comes from the configuration; the `decomposed` of the source.
unfoldable pub decomposed : Option TransformerBlockWeightDecomposition → Option WeightSplit
decomposed none = none
decomposed (some d) = elim d.method [
  | TransformerBlockWeightDecompositionMethod.config_parameter_decomposition ↦ some (record {
    block_bytes = d.estimated_transformer_block_weight_bytes;
    non_block_bytes = d.estimated_non_block_weight_bytes;
  })
  | TransformerBlockWeightDecompositionMethod.uniform_weight_fallback ↦ none
]

unfoldable pub offload_result_from_placement :
    Demand
    → Supply
    → OffloadPlacement
    → HardwareFitPlacementMethod
    → HardwareMemoryTopology
    → List Warning
    → Option HardwareFitOffloadDiagnostics
    → HardwareFitResult
offload_result_from_placement d s placement placement_method topology warnings diagnostics =
    record {
      mode = HardwareFitMode.gpu_offload;
      memory_topology = topology;
      weights_bytes = d.weights_bytes;
      kv_cache_bytes = d.kv_cache_bytes;
      overhead_bytes = d.overhead_bytes;
      device_reserve_bytes = d.device_reserve_bytes;
      safety_margin_bytes = d.safety_margin_bytes;
      available_vram_bytes = some s.available_vram;
      available_ram_bytes = some s.available_ram;
      gpu_required_bytes = some placement.gpu_required_bytes;
      gpu_weight_bytes = placement.gpu_weight_bytes;
      gpu_overhead_bytes = placement.gpu_overhead_bytes;
      gpu_safety_margin_bytes = placement.gpu_safety_margin_bytes;
      ram_required_bytes = some placement.ram_required_bytes;
      ram_weight_bytes = placement.ram_weight_bytes;
      ram_overhead_bytes = placement.ram_overhead_bytes;
      ram_safety_margin_bytes = placement.ram_safety_margin_bytes;
      gpu_kv_cache_bytes = placement.gpu_kv_cache_bytes;
      ram_kv_cache_bytes = placement.ram_kv_cache_bytes;
      gpu_transformer_blocks = placement.gpu_transformer_blocks;
      total_transformer_blocks = placement.total_transformer_blocks;
      placement_method = placement_method;
      offload_diagnostics = diagnostics;
      non_block_placement_bounds = placement.non_block_placement_bounds;
      reason = Reason.offload_placement_fits;
      warnings = warnings;
    }

-- `ram_budget`: the larger of the two endpoints where the non-block split is unknown.
unfoldable pub ram_budget : OffloadPlacement → ℕ
ram_budget placement = elim placement.non_block_placement_bounds [
  | none ↦ placement.ram_required_bytes
  | some bounds ↦ bounds.ram_required_max_bytes
]

-- The test behind a placement of the block search.
unfoldable pub both_fit : Supply → OffloadPlacement → Bool
unfolding ram_budget
both_fit s placement =
    leb placement.gpu_required_bytes s.available_vram && leb (ram_budget placement) s.available_ram

-- `blocks` blocks of `split`, rounded up: the GPU's share of the block weights.
unfoldable pub gpu_block_weight : WeightSplit → ℕ → ℕ → ℕ
gpu_block_weight split total blocks = (split.block_bytes * blocks + total - 1) / total

unfoldable pub non_block_bounds : WeightSplit → ℕ → OffloadPlacement → NonBlockPlacementBounds
non_block_bounds split gpu_block_bytes host = record {
  gpu_transformer_block_weight_bytes = gpu_block_bytes;
  ram_transformer_block_weight_bytes = split.block_bytes - gpu_block_bytes;
  non_block_weight_bytes = split.non_block_bytes;
  gpu_required_min_bytes = host.gpu_required_bytes;
  ram_required_max_bytes = host.ram_required_bytes;
  ram_overhead_max_bytes = host.ram_overhead_bytes;
  ram_safety_margin_max_bytes = host.ram_safety_margin_bytes;
}

module _ (fl : Floats) (d : Demand) where
  -- The body of the block loop up to the test: the placement of `blocks` of `total` blocks, each of
  -- `per_block` bytes where nothing finer is known.
  unfoldable pub block_placement : ℕ → ℕ → Option WeightSplit → ℕ → Option OffloadPlacement
  unfolding gpu_block_weight non_block_bounds
  block_placement total per_block none blocks =
      calculate_offload_placement fl d (some total) (some blocks)
        (min d.weights_bytes (blocks * per_block))
  block_placement total per_block (some split) blocks =
      let gpu_block_bytes = gpu_block_weight split total blocks in
      elim (calculate_offload_placement fl d (some total) (some blocks)
        (gpu_block_bytes + split.non_block_bytes)) [
          | none ↦ none
          | some placement ↦
              elim (calculate_offload_placement fl d (some total) (some blocks) gpu_block_bytes) [
                | none ↦ none
                | some host ↦ some (record placement {
                  non_block_placement_bounds = some (non_block_bounds split gpu_block_bytes host);
                })
              ]
        ]

  -- Where the block search starts; `none` where the source gives up before it.
  unfoldable pub search_ceiling : Supply → ℕ → ℕ → Option WeightSplit → Option ℕ
  search_ceiling s total per_block none =
      let blocks_budget = s.available_vram - d.device_reserve_bytes in
      if per_block == 0 || blocks_budget == 0
      then none
      else some (min total ((blocks_budget * total) / (per_block * total + d.kv_cache_bytes)))
  search_ceiling s total per_block (some split) =
      let blocks_budget = s.available_vram - d.device_reserve_bytes in
      let denominator = split.block_bytes + d.kv_cache_bytes in
      if per_block == 0 || blocks_budget == 0
      then none
      else if denominator == 0 || leb blocks_budget split.non_block_bytes
      then none
      else some (min (total - 1) ((total * (blocks_budget - split.non_block_bytes)) / denominator))

  -- The result for the placement that the block search stopped at.
  unfoldable pub block_result :
      Supply
      → HardwareMemoryTopology
      → ℕ
      → ℕ × OffloadPlacement × Option (ℕ × OffloadPlacement)
      → HardwareFitResult
  block_result s topology ceiling (blocks, placement, last_rejected) =
      offload_result_from_placement d s placement HardwareFitPlacementMethod.transformer_blocks
        topology
        (if is_some placement.non_block_placement_bounds
          then Warning.non_block_placement_unknown ∷ []
          else [])
        (some (record {
          search_ceiling_transformer_blocks = ceiling;
          selected = offload_candidate placement blocks d s.available_vram;
          first_rejected_higher = elim last_rejected [
            | none ↦ none
            | some (count, rejected) ↦ some (offload_candidate rejected count d s.available_vram)
          ];
        }))

  -- The branch of `_try_gpu_offload` with a block count.
  unfoldable pub try_block_offload :
      Supply → ℕ → HardwareMemoryTopology → Option WeightSplit → Option HardwareFitResult
  unfolding block_result
  try_block_offload s total topology split =
      let per_block = fl.ceil_quot d.weights_bytes total in
      elim (search_ceiling s total per_block split) [
        | none ↦ none
        | some ceiling ↦
            elim (search_blocks (block_placement total per_block split) (both_fit s) ceiling none) [
              | none ↦ none
              | some found ↦ some (block_result s topology ceiling found)
            ]
      ]

  -- The placement by bytes that the fallback probes.
  unfoldable pub byte_placement : Option ℕ → ℕ → Option OffloadPlacement
  byte_placement total gpu_weight_bytes =
      calculate_offload_placement fl d total none gpu_weight_bytes

  unfoldable pub fits_vram : Supply → OffloadPlacement → Bool
  fits_vram s placement = leb placement.gpu_required_bytes s.available_vram

  -- `high`, and the fuel that the search is given: one round for each byte is more than enough.
  unfoldable pub byte_ceiling : Supply → ℕ
  byte_ceiling s =
      min (d.weights_bytes - 1) (s.available_vram - d.kv_cache_bytes - d.device_reserve_bytes)

  -- The largest allocation that fits VRAM, if there is one.
  unfoldable pub best_byte_placement : Supply → Option ℕ → Option OffloadPlacement
  unfolding byte_placement fits_vram byte_ceiling
  best_byte_placement s total =
      let high = byte_ceiling s in
      search_bytes (byte_placement total) (fits_vram s) (high + 1) 1 high none

  -- The fallback of `_try_gpu_offload`, with no block count.
  unfoldable pub try_byte_offload :
      Supply → Option ℕ → HardwareMemoryTopology → Option HardwareFitResult
  try_byte_offload s total topology =
      if s.available_vram - d.kv_cache_bytes - d.device_reserve_bytes == 0
      then none
      else (elim (best_byte_placement s total) [
        | none ↦ none
        | some best ↦
            if ltb s.available_ram best.ram_required_bytes
            then none
            else some (
                offload_result_from_placement d s best HardwareFitPlacementMethod.estimated_bytes
                  topology (Warning.block_count_unavailable ∷ []) none)
      ])

  unfoldable pub try_gpu_offload :
      Supply
      → Option ℕ
      → HardwareMemoryTopology
      → Option TransformerBlockWeightDecomposition
      → Option HardwareFitResult
  unfolding try_block_offload try_byte_offload decomposed
  try_gpu_offload s none topology weight_decomposition = try_byte_offload s none topology
  try_gpu_offload s (some total) topology weight_decomposition =
      if ltb 0 total
      then try_block_offload s total topology (decomposed weight_decomposition)
      else try_byte_offload s (some total) topology
