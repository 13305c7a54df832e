-- ===== src/Fit/Placement.antt =====
-- One candidate placement: `_OffloadPlacement`, `_calculate_offload_placement` and
-- `_offload_candidate`. A difference of two byte counts that the source leaves signed is never
-- negative up to 2 ^ 53 bytes.
use jaull.Base.{ℕ, ◌+◌, ◌-◌, Bool, false, Option, none, some, ◌||◌, ltb, leb, ◌==◌, if◌then◌else◌}
use jaull.Estimation.{NonBlockPlacementBounds, HardwareFitOffloadCandidate}
use jaull.Fit.Floats.{Floats}
use jaull.Fit.Split.{split_kv_cache_by_transformer_blocks, split_heuristic_bytes}

-- The byte counts that the functions of the source hand on by keyword.
pub record Demand : Type 0 where
  pub weights_bytes : ℕ
  pub kv_cache_bytes : ℕ
  pub overhead_bytes : ℕ
  pub device_reserve_bytes : ℕ
  pub safety_margin_bytes : ℕ

pub record OffloadPlacement : Type 0 where
  pub total_transformer_blocks : Option ℕ
  pub gpu_transformer_blocks : Option ℕ
  pub gpu_required_bytes : ℕ
  pub ram_required_bytes : ℕ
  pub gpu_weight_bytes : ℕ
  pub ram_weight_bytes : ℕ
  pub gpu_kv_cache_bytes : ℕ
  pub ram_kv_cache_bytes : ℕ
  pub gpu_overhead_bytes : ℕ
  pub ram_overhead_bytes : ℕ
  pub gpu_safety_margin_bytes : ℕ
  pub ram_safety_margin_bytes : ℕ
  pub non_block_placement_bounds : Option NonBlockPlacementBounds

abbrev pub valid_transformer_block_count : Option ℕ → Bool
valid_transformer_block_count none = false
valid_transformer_block_count (some total) = ltb 0 total

module _ (fl : Floats) where
  -- The cache follows the blocks; with no block count it stays on the GPU.
  unfoldable pub place_kv_cache : ℕ → Option ℕ → Option ℕ → ℕ × ℕ
  unfolding split_kv_cache_by_transformer_blocks
  place_kv_cache kv_cache_bytes none total = (kv_cache_bytes, 0)
  place_kv_cache kv_cache_bytes (some blocks) none = (kv_cache_bytes, 0)
  place_kv_cache kv_cache_bytes (some blocks) (some total) =
      if ltb 0 total
      then split_kv_cache_by_transformer_blocks fl kv_cache_bytes blocks total
      else (kv_cache_bytes, 0)

  -- The body behind the guard, given how the cache is placed.
  unfoldable pub place : Demand → Option ℕ → Option ℕ → ℕ → ℕ × ℕ → OffloadPlacement
  place d total_transformer_blocks gpu_transformer_blocks gpu_weight_bytes kv =
      let ram_weight_bytes = d.weights_bytes - gpu_weight_bytes in
      let gpu_physical_bytes = gpu_weight_bytes + kv.0 + d.device_reserve_bytes in
      let ram_physical_bytes = ram_weight_bytes + kv.1 in
      let overhead =
        split_heuristic_bytes fl d.overhead_bytes (gpu_weight_bytes + kv.0)
          (ram_weight_bytes + kv.1) in
      let margin =
        split_heuristic_bytes fl d.safety_margin_bytes (gpu_physical_bytes + overhead.0)
          (ram_physical_bytes + overhead.1) in
      record {
        total_transformer_blocks = total_transformer_blocks;
        gpu_transformer_blocks = gpu_transformer_blocks;
        gpu_required_bytes = gpu_physical_bytes + overhead.0 + margin.0;
        ram_required_bytes = ram_physical_bytes + overhead.1 + margin.1;
        gpu_weight_bytes = gpu_weight_bytes;
        ram_weight_bytes = ram_weight_bytes;
        gpu_kv_cache_bytes = kv.0;
        ram_kv_cache_bytes = kv.1;
        gpu_overhead_bytes = overhead.0;
        ram_overhead_bytes = overhead.1;
        gpu_safety_margin_bytes = margin.0;
        ram_safety_margin_bytes = margin.1;
        non_block_placement_bounds = none;
      }

  unfoldable pub calculate_offload_placement :
      Demand → Option ℕ → Option ℕ → ℕ → Option OffloadPlacement
  unfolding place
  calculate_offload_placement d total_transformer_blocks gpu_transformer_blocks gpu_weight_bytes =
      if gpu_weight_bytes == 0 || leb d.weights_bytes gpu_weight_bytes
      then none
      else some (
          place d total_transformer_blocks gpu_transformer_blocks gpu_weight_bytes
            (place_kv_cache d.kv_cache_bytes gpu_transformer_blocks total_transformer_blocks))

-- `blocks` is the placement's block count, which the source asserts to be known.
unfoldable pub offload_candidate : OffloadPlacement → ℕ → Demand → ℕ → HardwareFitOffloadCandidate
offload_candidate placement blocks d available_vram = record {
  gpu_transformer_blocks = blocks;
  gpu_required_bytes = placement.gpu_required_bytes;
  ram_required_bytes = placement.ram_required_bytes;
  available_vram_bytes = available_vram;
  excess_bytes = placement.gpu_required_bytes - available_vram;
  headroom_bytes = available_vram - placement.gpu_required_bytes;
  gpu_weight_bytes = placement.gpu_weight_bytes;
  ram_weight_bytes = placement.ram_weight_bytes;
  kv_cache_bytes = d.kv_cache_bytes;
  gpu_kv_cache_bytes = placement.gpu_kv_cache_bytes;
  ram_kv_cache_bytes = placement.ram_kv_cache_bytes;
  device_reserve_bytes = d.device_reserve_bytes;
  gpu_overhead_bytes = placement.gpu_overhead_bytes;
  gpu_safety_margin_bytes = placement.gpu_safety_margin_bytes;
  ram_overhead_bytes = placement.ram_overhead_bytes;
  ram_safety_margin_bytes = placement.ram_safety_margin_bytes;
  non_block_placement_bounds = placement.non_block_placement_bounds;
}
