-- ===== src/Fit/Results.antt =====
-- The results that `analyze_components` and `_analyze_unified_memory` build where nothing is
-- offloaded.
use jaull.Base.{ℕ, ◌+◌, Option, none, some, List, [], leb, if◌then◌else◌}
use jaull.Estimation.{
  HardwareFitMode, HardwareMemoryTopology, HardwareFitPlacementMethod, HardwareFitResult, Reason,
  Warning,
}
use jaull.Fit.Placement.{Demand, valid_transformer_block_count}

unfoldable pub gpu_required_if_resident : Demand → ℕ
gpu_required_if_resident d =
    d.kv_cache_bytes + d.overhead_bytes + d.device_reserve_bytes + d.weights_bytes
    + d.safety_margin_bytes

unfoldable pub cpu_required : Demand → ℕ
cpu_required d = d.weights_bytes + d.kv_cache_bytes + d.overhead_bytes + d.safety_margin_bytes

abbrev pub resident_method : Option ℕ → HardwareFitPlacementMethod
resident_method blocks =
    if valid_transformer_block_count blocks
    then HardwareFitPlacementMethod.transformer_blocks
    else HardwareFitPlacementMethod.estimated_bytes

-- `0 if available_vram is not None else None`
abbrev pub gpu_transformer_blocks_when_unused : Option ℕ → Option ℕ
gpu_transformer_blocks_when_unused none = none
gpu_transformer_blocks_when_unused (some _) = some 0

-- The result with every weight in VRAM.
unfoldable pub resident_result :
    Demand → ℕ → ℕ → Option ℕ → HardwareMemoryTopology → HardwareFitResult
unfolding gpu_required_if_resident
resident_result d available_vram available_ram blocks topology = record {
  mode = HardwareFitMode.gpu_resident;
  memory_topology = topology;
  weights_bytes = d.weights_bytes;
  kv_cache_bytes = d.kv_cache_bytes;
  overhead_bytes = d.overhead_bytes;
  device_reserve_bytes = d.device_reserve_bytes;
  safety_margin_bytes = d.safety_margin_bytes;
  available_vram_bytes = some available_vram;
  available_ram_bytes = some available_ram;
  gpu_required_bytes = some (gpu_required_if_resident d);
  gpu_weight_bytes = d.weights_bytes;
  gpu_overhead_bytes = d.overhead_bytes;
  gpu_safety_margin_bytes = d.safety_margin_bytes;
  ram_required_bytes = some 0;
  ram_weight_bytes = 0;
  ram_overhead_bytes = 0;
  ram_safety_margin_bytes = 0;
  gpu_kv_cache_bytes = d.kv_cache_bytes;
  ram_kv_cache_bytes = 0;
  gpu_transformer_blocks = blocks;
  total_transformer_blocks = blocks;
  placement_method = resident_method blocks;
  offload_diagnostics = none;
  non_block_placement_bounds = none;
  reason = Reason.fits_in_vram;
  warnings = [];
}

-- The result with no weight in VRAM: `mode` and `reason` say whether system memory holds them.
unfoldable pub host_result :
    HardwareFitMode
    → Reason
    → Demand
    → Option ℕ
    → ℕ
    → Option ℕ
    → HardwareMemoryTopology
    → List Warning
    → HardwareFitResult
unfolding gpu_required_if_resident cpu_required
host_result mode reason d available_vram available_ram blocks topology warnings = record {
  mode = mode;
  memory_topology = topology;
  weights_bytes = d.weights_bytes;
  kv_cache_bytes = d.kv_cache_bytes;
  overhead_bytes = d.overhead_bytes;
  device_reserve_bytes = d.device_reserve_bytes;
  safety_margin_bytes = d.safety_margin_bytes;
  available_vram_bytes = available_vram;
  available_ram_bytes = some available_ram;
  gpu_required_bytes = elim available_vram [
    | none ↦ none
    | some _ ↦ some (gpu_required_if_resident d)
  ];
  gpu_weight_bytes = 0;
  gpu_overhead_bytes = 0;
  gpu_safety_margin_bytes = 0;
  ram_required_bytes = some (cpu_required d);
  ram_weight_bytes = d.weights_bytes;
  ram_overhead_bytes = d.overhead_bytes;
  ram_safety_margin_bytes = d.safety_margin_bytes;
  gpu_kv_cache_bytes = 0;
  ram_kv_cache_bytes = d.kv_cache_bytes;
  gpu_transformer_blocks = gpu_transformer_blocks_when_unused available_vram;
  total_transformer_blocks = blocks;
  placement_method = HardwareFitPlacementMethod.no_blocks;
  offload_diagnostics = none;
  non_block_placement_bounds = none;
  reason = reason;
  warnings = warnings;
}

unfoldable pub unified_required : Demand → ℕ
unified_required d =
    d.weights_bytes + d.kv_cache_bytes + d.overhead_bytes + d.device_reserve_bytes
    + d.safety_margin_bytes

unfoldable pub analyze_unified_memory : Demand → ℕ → Option ℕ → HardwareFitResult
unfolding unified_required
analyze_unified_memory d available_ram blocks = record {
  mode =
      if leb (unified_required d) available_ram
      then HardwareFitMode.cpu_ram
      else HardwareFitMode.too_large;
  memory_topology = HardwareMemoryTopology.unified_memory;
  weights_bytes = d.weights_bytes;
  kv_cache_bytes = d.kv_cache_bytes;
  overhead_bytes = d.overhead_bytes;
  device_reserve_bytes = d.device_reserve_bytes;
  safety_margin_bytes = d.safety_margin_bytes;
  available_vram_bytes = none;
  available_ram_bytes = some available_ram;
  gpu_required_bytes = none;
  gpu_weight_bytes = 0;
  gpu_overhead_bytes = 0;
  gpu_safety_margin_bytes = 0;
  ram_required_bytes = some (unified_required d);
  ram_weight_bytes = d.weights_bytes;
  ram_overhead_bytes = d.overhead_bytes;
  ram_safety_margin_bytes = d.safety_margin_bytes;
  gpu_kv_cache_bytes = 0;
  ram_kv_cache_bytes = d.kv_cache_bytes;
  gpu_transformer_blocks = none;
  total_transformer_blocks = blocks;
  placement_method = HardwareFitPlacementMethod.no_blocks;
  offload_diagnostics = none;
  non_block_placement_bounds = none;
  reason =
      if leb (unified_required d) available_ram
      then Reason.shared_pool_fits
      else Reason.shared_pool_insufficient;
  warnings = [];
}
