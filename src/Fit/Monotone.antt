-- ===== src/Fit/Monotone.antt =====
-- More weight on the GPU asks more of the GPU and less of system memory.
use jaull.Base.{ℕ, ◌+◌, ◌-◌, ◌≤◌, ◌<◌, ◌≡◌, Option, some, arith}
use jaull.Fit.Floats.{Floats, IsRounded}
use jaull.Fit.Split.{split_heuristic_bytes}
use jaull.Fit.Placement.{
  Demand, OffloadPlacement, place_kv_cache, place, calculate_offload_placement,
}
use jaull.Fit.Conserve.{IsExact, split_heuristic_sum, calculate_offload_placement-Balances}

module _ (fl : Floats) where
  pub calculate_lem :
      (d : Demand) (t n : Option ℕ) (w : ℕ) {p : OffloadPlacement}
      → calculate_offload_placement fl d t n w ≡ some p
      → (0 < w)
        × (w < d.weights_bytes)
        × (p ≡ place fl d t n w (place_kv_cache fl d.kv_cache_bytes n t))
  unfolding calculate_offload_placement
  calculate_lem d t n w e = ground arith

  pub calculate_built :
      (d : Demand) (t n : Option ℕ) (w : ℕ)
      → 0 < w
      → w < d.weights_bytes
      → calculate_offload_placement fl d t n w
        ≡ some (place fl d t n w (place_kv_cache fl d.kv_cache_bytes n t))
  unfolding calculate_offload_placement
  calculate_built d t n w pos below = ground arith

module _ (fl : Floats) (r : IsRounded fl) where
  split_heuristic_mono :
      (total g m g' m' : ℕ)
      → 0 < g
      → g ≤ g'
      → 0 < m'
      → g + m ≡ g' + m'
      → (split_heuristic_bytes fl total g m).0 ≤ (split_heuristic_bytes fl total g' m').0
  unfolding split_heuristic_bytes
  split_heuristic_mono total g m g' m' pos le pos' sum =
      ground (arith, r.share_mono total g g' (g + m))

  place_gpu_mono :
      (d : Demand) (t n : Option ℕ) (w w' : ℕ) (kv : ℕ × ℕ)
      → 0 < w
      → w ≤ w'
      → w' < d.weights_bytes
      → IsExact d
      → (place fl d t n w kv).gpu_required_bytes ≤ (place fl d t n w' kv).gpu_required_bytes
  unfolding place
  place_gpu_mono d t n w w' kv pos le below x =
      let m = d.weights_bytes - w in
      let m' = d.weights_bytes - w' in
      let o = split_heuristic_bytes fl d.overhead_bytes (w + kv.0) (m + kv.1) in
      let o' = split_heuristic_bytes fl d.overhead_bytes (w' + kv.0) (m' + kv.1) in
      let overheads : o.0 ≤ o'.0 =
        split_heuristic_mono d.overhead_bytes (w + kv.0) (m + kv.1) (w' + kv.0) (m' + kv.1)
          (omega arith) (omega arith) (omega arith) (omega arith) in
      let sum = split_heuristic_sum fl r d.overhead_bytes (w + kv.0) (m + kv.1) x.overhead_exact in
      let sum' =
        split_heuristic_sum fl r d.overhead_bytes (w' + kv.0) (m' + kv.1) x.overhead_exact in
      let margins =
        split_heuristic_mono d.safety_margin_bytes (w + kv.0 + d.device_reserve_bytes + o.0)
          (m + kv.1 + o.1) (w' + kv.0 + d.device_reserve_bytes + o'.0) (m' + kv.1 + o'.1)
          (omega arith) (omega arith) (omega arith) (omega arith) in
      omega arith

  -- Of two placements with the same blocks, the one with more weight on the GPU asks at least as
  -- much of the GPU, and at most as much of system memory.
  pub calculate_offload_placement_mono :
      (d : Demand) (t n : Option ℕ) (w w' : ℕ) {p p' : OffloadPlacement}
      → IsExact d
      → w ≤ w'
      → calculate_offload_placement fl d t n w ≡ some p
      → calculate_offload_placement fl d t n w' ≡ some p'
      → (p.gpu_required_bytes ≤ p'.gpu_required_bytes)
        × (p'.ram_required_bytes ≤ p.ram_required_bytes)
  calculate_offload_placement_mono d t n w w' {p} {p'} x le e e' =
      let b = calculate_offload_placement-Balances fl r d t n w x e in
      let b' = calculate_offload_placement-Balances fl r d t n w' x e' in
      let (pos, below, here) = calculate_lem fl d t n w e in
      let (pos', below', here') = calculate_lem fl d t n w' e' in
      let kv = place_kv_cache fl d.kv_cache_bytes n t in
      let gpu : p.gpu_required_bytes ≤ p'.gpu_required_bytes =
        rw (here, here') (place_gpu_mono d t n w w' kv pos le below' x) in
      (gpu, ground (arith, b, b'))
