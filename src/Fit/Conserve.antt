-- ===== src/Fit/Conserve.antt =====
-- No byte is created or lost by a placement.
use jaull.Base.{ℕ, ◌+◌, ◌-◌, ◌^◌, ◌≤◌, ◌<◌, ◌≡◌, Option, none, some, arith}
use jaull.Fit.Floats.{Floats, IsRounded}
use jaull.Fit.Split.{split_kv_cache_by_transformer_blocks, split_heuristic_bytes}
use jaull.Fit.Placement.{
  Demand, OffloadPlacement, place_kv_cache, place, calculate_offload_placement,
}

-- The byte counts are held exactly by doubles.
pub record IsExact (d : Demand) : Type 0 where
  pub kv_cache_exact : d.kv_cache_bytes ≤ 2 ^ 53
  pub overhead_exact : d.overhead_bytes ≤ 2 ^ 53
  pub safety_margin_exact : d.safety_margin_bytes ≤ 2 ^ 53

-- What a placement is: each component split in two, and the two budgets summed from the shares.
pub record Balances (d : Demand) (p : OffloadPlacement) : Type 0 where
  pub weights : p.gpu_weight_bytes + p.ram_weight_bytes ≡ d.weights_bytes
  pub kv_cache : p.gpu_kv_cache_bytes + p.ram_kv_cache_bytes ≡ d.kv_cache_bytes
  pub overhead : p.gpu_overhead_bytes + p.ram_overhead_bytes ≡ d.overhead_bytes
  pub margin : p.gpu_safety_margin_bytes + p.ram_safety_margin_bytes ≡ d.safety_margin_bytes
  pub gpu_sum :
      p.gpu_required_bytes
      ≡ p.gpu_weight_bytes + p.gpu_kv_cache_bytes + d.device_reserve_bytes + p.gpu_overhead_bytes
        + p.gpu_safety_margin_bytes
  pub ram_sum :
      p.ram_required_bytes
      ≡ p.ram_weight_bytes + p.ram_kv_cache_bytes + p.ram_overhead_bytes + p.ram_safety_margin_bytes
  pub gpu_used : 0 < p.gpu_weight_bytes
  pub ram_used : 0 < p.ram_weight_bytes

module _ (fl : Floats) (r : IsRounded fl) where
  -- The split of the KV cache conserves it.
  pub split_kv_cache_sum :
      (kv n t : ℕ)
      → kv ≤ 2 ^ 53
      → let (gpu, ram) = split_kv_cache_by_transformer_blocks fl kv n t in gpu + ram ≡ kv
  unfolding split_kv_cache_by_transformer_blocks
  split_kv_cache_sum kv n t h = ground (arith, r.share_le kv n t)

  -- So does the proportional split of overhead and margin.
  pub split_heuristic_sum :
      (total g m : ℕ)
      → total ≤ 2 ^ 53
      → let (gpu, ram) = split_heuristic_bytes fl total g m in gpu + ram ≡ total
  unfolding split_heuristic_bytes
  split_heuristic_sum total g m h = ground (arith, r.share_le total g (g + m))

  pub place_kv_cache_sum :
      (kv : ℕ) (n t : Option ℕ)
      → kv ≤ 2 ^ 53
      → let (gpu, ram) = place_kv_cache fl kv n t in gpu + ram ≡ kv
  unfolding place_kv_cache
  place_kv_cache_sum kv none t h = omega arith
  place_kv_cache_sum kv (some n) none h = omega arith
  place_kv_cache_sum kv (some n) (some t) h = ground (arith, split_kv_cache_sum kv n t h)

  place-Balances :
      (d : Demand) (t n : Option ℕ) (w : ℕ) (kv : ℕ × ℕ)
      → IsExact d
      → 0 < w
      → w < d.weights_bytes
      → kv.0 + kv.1 ≡ d.kv_cache_bytes
      → Balances d (place fl d t n w kv)
  unfolding place
  place-Balances d t n w kv x pos below sum =
      let m = d.weights_bytes - w in
      let o = split_heuristic_bytes fl d.overhead_bytes (w + kv.0) (m + kv.1) in
      ground (
        arith,
        split_heuristic_sum d.overhead_bytes (w + kv.0) (m + kv.1),
        split_heuristic_sum d.safety_margin_bytes (w + kv.0 + d.device_reserve_bytes + o.0)
            (m + kv.1 + o.1),
      )

  -- Every placement that `_calculate_offload_placement` returns conserves the weights, the KV
  -- cache, the overhead and the margin exactly between the two pools, charges each pool the sum
  -- of its shares (and the reserve to the GPU), and puts some weight in each.
  pub calculate_offload_placement-Balances :
      (d : Demand) (t n : Option ℕ) (w : ℕ) {p : OffloadPlacement}
      → IsExact d
      → calculate_offload_placement fl d t n w ≡ some p
      → Balances d p
  unfolding calculate_offload_placement
  calculate_offload_placement-Balances d t n w x e =
      let kv = place_kv_cache fl d.kv_cache_bytes n t in
      ground (arith, place-Balances d t n w kv x, place_kv_cache_sum d.kv_cache_bytes n t)
