-- ===== src/Estimation/Fit.antt =====
-- The records of the placement analysis, of src/jaull/domain/estimation.py. `no_blocks` is the
-- placement method "none"; the alias LAYERS of `transformer_blocks` is the same member.
use jaull.Base.{ℕ, ◌+◌, Bool, true, false, Option, none, some, List, ltb, not, if◌then◌else◌}
use jaull.Base.Int.{ℤ, sub_ℕ}

pub data TransformerBlockWeightDecompositionMethod : Type 0 where
  config_parameter_decomposition uniform_weight_fallback : TransformerBlockWeightDecompositionMethod

pub data HardwareFitMode : Type 0 where
  gpu_resident gpu_offload cpu_ram too_large : HardwareFitMode

pub data HardwareMemoryTopology : Type 0 where
  discrete_memory unified_memory : HardwareMemoryTopology

pub data HardwareFitPlacementMethod : Type 0 where
  transformer_blocks estimated_bytes no_blocks : HardwareFitPlacementMethod

pub record TransformerBlockWeightDecomposition : Type 0 where
  pub total_weight_bytes : ℕ
  pub estimated_transformer_block_weight_bytes : ℕ
  pub estimated_non_block_weight_bytes : ℕ
  pub estimated_embedding_weight_bytes : Option ℕ
  pub estimated_output_head_weight_bytes : Option ℕ
  pub estimated_bytes_per_transformer_block : ℕ
  pub total_transformer_blocks : ℕ
  pub method : TransformerBlockWeightDecompositionMethod

pub record NonBlockPlacementBounds : Type 0 where
  pub gpu_transformer_block_weight_bytes : ℕ
  pub ram_transformer_block_weight_bytes : ℕ
  pub non_block_weight_bytes : ℕ
  pub gpu_required_min_bytes : ℕ
  pub ram_required_max_bytes : ℕ
  pub ram_overhead_max_bytes : ℕ
  pub ram_safety_margin_max_bytes : ℕ

pub record HardwareFitOffloadCandidate : Type 0 where
  pub gpu_transformer_blocks : ℕ
  pub gpu_required_bytes : ℕ
  pub ram_required_bytes : ℕ
  pub available_vram_bytes : ℕ
  pub excess_bytes : ℕ
  pub headroom_bytes : ℕ
  pub gpu_weight_bytes : ℕ
  pub ram_weight_bytes : ℕ
  pub kv_cache_bytes : ℕ
  pub gpu_kv_cache_bytes : ℕ
  pub ram_kv_cache_bytes : ℕ
  pub device_reserve_bytes : ℕ
  pub gpu_overhead_bytes : ℕ
  pub gpu_safety_margin_bytes : ℕ
  pub ram_overhead_bytes : ℕ
  pub ram_safety_margin_bytes : ℕ
  pub non_block_placement_bounds : Option NonBlockPlacementBounds

pub record HardwareFitOffloadDiagnostics : Type 0 where
  pub search_ceiling_transformer_blocks : ℕ
  pub selected : HardwareFitOffloadCandidate
  pub first_rejected_higher : Option HardwareFitOffloadCandidate

-- The sentences of `reason` and `warnings`.
pub data Reason : Type 0 where
  fits_in_vram offload_placement_fits no_placement_fits shared_pool_fits shared_pool_insufficient :
      Reason
  fits_in_ram : (gpu_detected : Bool) → Reason

pub data Warning : Type 0 where
  non_block_placement_unknown offload_not_guaranteed block_count_unavailable
        offloading_approximate :
      Warning

pub record HardwareFitResult : Type 0 where
  pub mode : HardwareFitMode
  pub memory_topology : HardwareMemoryTopology
  pub weights_bytes : ℕ
  pub kv_cache_bytes : ℕ
  pub overhead_bytes : ℕ
  pub device_reserve_bytes : ℕ
  pub safety_margin_bytes : ℕ
  pub available_vram_bytes : Option ℕ
  pub available_ram_bytes : Option ℕ
  pub gpu_required_bytes : Option ℕ
  pub gpu_weight_bytes : ℕ
  pub gpu_overhead_bytes : ℕ
  pub gpu_safety_margin_bytes : ℕ
  pub ram_required_bytes : Option ℕ
  pub ram_weight_bytes : ℕ
  pub ram_overhead_bytes : ℕ
  pub ram_safety_margin_bytes : ℕ
  pub gpu_kv_cache_bytes : ℕ
  pub ram_kv_cache_bytes : ℕ
  pub gpu_transformer_blocks : Option ℕ
  pub total_transformer_blocks : Option ℕ
  pub placement_method : HardwareFitPlacementMethod
  pub offload_diagnostics : Option HardwareFitOffloadDiagnostics
  pub non_block_placement_bounds : Option NonBlockPlacementBounds
  pub reason : Reason
  pub warnings : List Warning

abbrev pub on_gpu : HardwareFitMode → Bool
on_gpu HardwareFitMode.gpu_resident = true
on_gpu HardwareFitMode.gpu_offload = true
on_gpu _ = false

abbrev pub is_unified : HardwareMemoryTopology → Bool
is_unified HardwareMemoryTopology.unified_memory = true
is_unified HardwareMemoryTopology.discrete_memory = false

unfoldable pub places_weights_on_gpu : HardwareFitResult → Bool
places_weights_on_gpu fit = on_gpu fit.mode

-- Whether the placement bounds an unknown, positive share of non-block weights.
abbrev pub is_endpoint : Option NonBlockPlacementBounds → Bool
is_endpoint none = false
is_endpoint (some bounds) = ltb 0 bounds.non_block_weight_bytes

unfoldable pub gpu_physical_bytes : HardwareFitResult → Option ℤ
unfolding places_weights_on_gpu
gpu_physical_bytes fit =
    if is_endpoint fit.non_block_placement_bounds
    then none
    else if not (places_weights_on_gpu fit)
    then none
    else elim fit.gpu_required_bytes [
      | none ↦ none
      | some required ↦
          some (sub_ℕ required (fit.device_reserve_bytes + fit.gpu_safety_margin_bytes))
    ]

unfoldable pub ram_physical_bytes : HardwareFitResult → Option ℤ
ram_physical_bytes fit =
    if is_endpoint fit.non_block_placement_bounds then none else elim fit.ram_required_bytes [
      | none ↦ none
      | some required ↦ some (
          sub_ℕ required (
            fit.ram_safety_margin_bytes
            + (if is_unified fit.memory_topology then fit.device_reserve_bytes else 0)))
    ]
