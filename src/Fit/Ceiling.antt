-- ===== src/Fit/Ceiling.antt =====
-- The starting point of the block search skips no placement that fits.
use jaull.Base.{
  ℕ, ◌+◌, ◌-◌, ◌*◌, ◌/◌, ◌^◌, ◌≤◌, ◌<◌, ◌≡◌, none, some, min, arith, ap, inl, inr, Option-cases,
}
use native.Mathlib.Nat.{le-div_iff_mul-le, mul-le-mul_left, mul-le-mul_right}
use jaull.Fit.Floats.{Floats, IsRounded}
use jaull.Fit.Split.{split_kv_cache_by_transformer_blocks}
use jaull.Fit.Placement.{Demand, OffloadPlacement, place_kv_cache, calculate_offload_placement}
use jaull.Fit.Offload.{
  Supply, WeightSplit, gpu_block_weight, block_placement, non_block_bounds, search_ceiling,
}

-- The KV cache times the block count is small enough for the share to be rounded up.
abbrev pub IsCovered : Demand → ℕ → Type 0
IsCovered d total = d.kv_cache_bytes * total ≤ 2 ^ 51

budget_product :
    (n per g kv t budget : ℕ)
    → n * per + g ≤ budget
    → kv * n ≤ t * g
    → n * (per * t + kv) ≤ budget * t
budget_product n per g kv t budget fits covers = omega (arith, mul-le-mul_right t fits)

split_product :
    (n b w kv g t rest budget : ℕ)
    → w + g + rest ≤ budget
    → b * n ≤ t * w
    → kv * n ≤ t * g
    → n * (b + kv) ≤ t * (budget - rest)
split_product n b w kv g t rest budget fits blocks covers =
    let h : w + g ≤ budget - rest = omega arith in omega (arith, mul-le-mul_left t h)

-- A quotient that is rounded up covers its numerator.
pub le-mul-ceil_quot : (a t : ℕ) → 0 < t → a ≤ t * ((a + (t - 1)) / t)
le-mul-ceil_quot a t pos = grind arith

module _ (fl : Floats) (r : IsRounded fl) where
  -- `blocks` of `total` blocks keep at least their share of the cache on the GPU.
  split_kv_cache_covers :
      (kv n t : ℕ)
      → kv * t ≤ 2 ^ 51
      → n ≤ t
      → 0 < t
      → kv * n ≤ t * (split_kv_cache_by_transformer_blocks fl kv n t).0
  unfolding split_kv_cache_by_transformer_blocks
  split_kv_cache_covers kv n t small le pos = grind (arith, r.share_covers kv n t)

  -- What a placement of blocks charges the GPU at least.
  pub calculate_lower :
      (d : Demand) (t n w : ℕ) {p : OffloadPlacement}
      → 0 < t
      → calculate_offload_placement fl d (some t) (some n) w ≡ some p
      → (0 < w)
        × (w < d.weights_bytes)
        × (w
              + (split_kv_cache_by_transformer_blocks fl d.kv_cache_bytes n t).0
              + d.device_reserve_bytes
            ≤ p.gpu_required_bytes)
  unfolding calculate_offload_placement place_kv_cache
  calculate_lower d t n w {p} pos e = ground arith

  pub search_ceiling_plain :
      (d : Demand) (s : Supply) (t per n : ℕ) {p : OffloadPlacement}
      → 0 < t
      → d.weights_bytes ≤ t * per
      → IsCovered d t
      → block_placement fl d t per none n ≡ some p
      → p.gpu_required_bytes ≤ s.available_vram
      → (c : ℕ) × (search_ceiling fl d s t per none ≡ some c) × (n ≤ c)
  unfolding block_placement search_ceiling
  search_ceiling_plain d s t per n pos covered small e fits =
      let (used, below, lower) = calculate_lower d t n (min d.weights_bytes (n * per)) pos e in
      let w_eq : min d.weights_bytes (n * per) ≡ n * per = omega arith in
      let n_lt : n < t = grind arith in
      let share = split_kv_cache_covers d.kv_cache_bytes n t small (omega arith) pos in
      let product =
        budget_product n per (split_kv_cache_by_transformer_blocks fl d.kv_cache_bytes n t).0
          d.kv_cache_bytes t (s.available_vram - d.device_reserve_bytes) (omega arith) share in
      let per_pos : 0 < per = grind arith in
      let budget_pos : 0 < s.available_vram - d.device_reserve_bytes = omega arith in
      let denominator_pos : 0 < per * t + d.kv_cache_bytes = grind arith in
      let bound = (le-div_iff_mul-le denominator_pos).1 product in
      (
        min t (((s.available_vram - d.device_reserve_bytes) * t) / (per * t + d.kv_cache_bytes)),
        ground arith,
        omega arith,
      )

  -- A placement with an unknown non-block split is the GPU-heavy endpoint, with the other
  -- endpoint's budgets.
  pub block_placement_split :
      (d : Demand) (t per : ℕ) (split : WeightSplit) (n : ℕ) {p : OffloadPlacement}
      → block_placement fl d t per (some split) n ≡ some p
      → (q : OffloadPlacement) × (host : OffloadPlacement) × (calculate_offload_placement fl d
            (some t)
            (some n)
            (gpu_block_weight split t n + split.non_block_bytes)
          ≡ some q)
        × (calculate_offload_placement fl d (some t) (some n) (gpu_block_weight split t n)
            ≡ some host)
        × (p ≡ record q {
          non_block_placement_bounds =
              some (non_block_bounds split (gpu_block_weight split t n) host);
        })
  unfolding block_placement
  block_placement_split d t per split n e =
      let gb = gpu_block_weight split t n in
      let heavy = calculate_offload_placement fl d (some t) (some n) (gb + split.non_block_bytes) in
      let light = calculate_offload_placement fl d (some t) (some n) gb in
      elim (Option-cases heavy) [
        | inl nothing ↦ absurd (ground arith)
        | inr (q, e1) ↦ elim (Option-cases light) [
          | inl nothing ↦ absurd (ground arith)
          | inr (host, e2) ↦ (q, host, e1, e2, ground arith)
        ]
      ]

  -- With non-block weights, no block count whose placement fits the VRAM lies above the ceiling where
  -- the block search starts, if the KV cache times the blocks is at most 2 ^ 51.
  pub search_ceiling_split :
      (d : Demand) (s : Supply) (t per : ℕ) (split : WeightSplit) (n : ℕ) {p : OffloadPlacement}
      → 0 < t
      → 0 < n
      → 0 < per
      → split.block_bytes + split.non_block_bytes ≡ d.weights_bytes
      → IsCovered d t
      → block_placement fl d t per (some split) n ≡ some p
      → p.gpu_required_bytes ≤ s.available_vram
      → (c : ℕ) × (search_ceiling fl d s t per (some split) ≡ some c) × (n ≤ c)
  unfolding search_ceiling gpu_block_weight
  search_ceiling_split d s t per split n {p} pos n_pos per_pos sum small e fits =
      let gb = gpu_block_weight split t n in
      let (q, host, e1, e2, eq) = block_placement_split d t per split n e in
      let (used, below, lower) = calculate_lower d t n (gb + split.non_block_bytes) pos e1 in
      let same : p.gpu_required_bytes ≡ q.gpu_required_bytes = ap (λ x. x.gpu_required_bytes) eq in
      let gb_ge : split.block_bytes * n ≤ t * gb = grind arith in
      let n_lt : n < t = grind arith in
      let share = split_kv_cache_covers d.kv_cache_bytes n t small (omega arith) pos in
      let product =
        split_product n split.block_bytes gb d.kv_cache_bytes
          (split_kv_cache_by_transformer_blocks fl d.kv_cache_bytes n t).0 t split.non_block_bytes
          (s.available_vram - d.device_reserve_bytes) (omega arith) gb_ge share in
      let denominator_pos : 0 < split.block_bytes + d.kv_cache_bytes = omega arith in
      let bound = (le-div_iff_mul-le denominator_pos).1 product in
      (
        min (t - 1) (
            (t * (s.available_vram - d.device_reserve_bytes - split.non_block_bytes))
            / (split.block_bytes + d.kv_cache_bytes)),
        ground arith,
        omega arith,
      )
