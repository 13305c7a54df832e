-- ===== src/Fit/Split.antt =====
-- How one byte count is divided between the GPU and system memory.
use jaull.Base.{ℕ, ◌+◌, ◌-◌, ◌||◌, leb, ◌==◌, if◌then◌else◌}
use jaull.Fit.Floats.{Floats}

module _ (fl : Floats) where
  unfoldable pub split_kv_cache_by_transformer_blocks : ℕ → ℕ → ℕ → ℕ × ℕ
  split_kv_cache_by_transformer_blocks kv_cache_bytes gpu_transformer_blocks
        total_transformer_blocks =
      if kv_cache_bytes == 0 || total_transformer_blocks == 0
      then (0, kv_cache_bytes)
      else if gpu_transformer_blocks == 0
      then (0, kv_cache_bytes)
      else if leb total_transformer_blocks gpu_transformer_blocks
      then (kv_cache_bytes, 0)
      else (let gpu_bytes =
            fl.ceil_share kv_cache_bytes gpu_transformer_blocks total_transformer_blocks in
          (gpu_bytes, kv_cache_bytes - gpu_bytes))

  unfoldable pub split_heuristic_bytes : ℕ → ℕ → ℕ → ℕ × ℕ
  split_heuristic_bytes total_bytes gpu_basis_bytes ram_basis_bytes =
      if total_bytes == 0
      then (0, 0)
      else if gpu_basis_bytes == 0
      then (0, total_bytes)
      else if ram_basis_bytes == 0
      then (total_bytes, 0)
      else (let basis_total = gpu_basis_bytes + ram_basis_bytes in
          let gpu_bytes = fl.ceil_share total_bytes gpu_basis_bytes basis_total in
          (gpu_bytes, total_bytes - gpu_bytes))
