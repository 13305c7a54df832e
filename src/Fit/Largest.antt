-- ===== src/Fit/Largest.antt =====
-- `_try_gpu_offload` misses no placement: it returns the one with most on the GPU.
use jaull.Base.{ℕ, ◌+◌, ◌*◌, ◌^◌, ◌≤◌, ◌<◌, ◌≡◌, Option, none, some, arith, ap, ◌∙◌}
use jaull.Estimation.{HardwareMemoryTopology, HardwareFitResult}
use jaull.Fit.Floats.{Floats, IsRounded}
use jaull.Fit.Placement.{Demand, OffloadPlacement, place}
use jaull.Fit.Offload.{
  Supply, WeightSplit, both_fit, block_placement, block_result, search_ceiling, try_block_offload,
  offload_result_from_placement,
}
use jaull.Fit.Loops.{Feasible, search_blocks-Feasible, search_blocks_largest}
use jaull.Fit.Ceiling.{
  IsCovered, calculate_lower, search_ceiling_plain, search_ceiling_split, block_placement_split,
  le-mul-ceil_quot,
}
use jaull.Fit.Monotone.{calculate_lem}

-- A decomposition divides exactly the estimated weights.
abbrev pub Divides : Demand → Option WeightSplit → Type 0
Divides d none = Unit
Divides d (some split) = split.block_bytes + split.non_block_bytes ≡ d.weights_bytes

module _ (fl : Floats) (r : IsRounded fl) (d : Demand) where
  -- `blocks` blocks on the GPU can be placed within both pools.
  abbrev pub BlocksFit : Supply → ℕ → Option WeightSplit → ℕ → Type 0
  BlocksFit s t split =
      Feasible (block_placement fl d t (fl.ceil_quot d.weights_bytes t) split) (both_fit s)

  per_block_covers :
      (t : ℕ)
      → 0 < t
      → d.weights_bytes ≤ 2 ^ 53
      → d.weights_bytes ≤ t * fl.ceil_quot d.weights_bytes t
  per_block_covers t pos small =
      rw (r.quot_exact d.weights_bytes t small pos) (le-mul-ceil_quot d.weights_bytes t pos)

  search_ceiling_covers :
      (s : Supply) (t : ℕ) (split : Option WeightSplit) (m : ℕ)
      → 0 < t
      → 0 < m
      → d.weights_bytes ≤ 2 ^ 53
      → IsCovered d t
      → Divides d split
      → BlocksFit s t split m
      → (c : ℕ) × (search_ceiling fl d s t (fl.ceil_quot d.weights_bytes t) split ≡ some c)
        × (m ≤ c)
  unfolding both_fit
  search_ceiling_covers s t none m pos m_pos exact small _ f =
      let covers = per_block_covers t pos exact in
      search_ceiling_plain fl r d s t _ m pos covers small f.built (ground (arith, f.fitting))
  search_ceiling_covers s t (some split) m pos m_pos exact small sum f =
      let per = fl.ceil_quot d.weights_bytes t in
      let covers = per_block_covers t pos exact in
      let (q, host, heavy, light, same) = block_placement_split fl r d t per split m f.built in
      let (used, below, lower) = calculate_lower fl r d t m _ pos heavy in
      let per_pos : 0 < per = grind arith in
      search_ceiling_split fl r d s t per split m pos m_pos per_pos sum small f.built
        (ground (arith, f.fitting))

  -- A placement of the block loop carries its count.
  block_placement_count :
      (t per : ℕ) (split : Option WeightSplit) (n : ℕ) {p : OffloadPlacement}
      → block_placement fl d t per split n ≡ some p
      → p.gpu_transformer_blocks ≡ some n
  unfolding block_placement place
  block_placement_count t per none n e =
      let (_, _, here) = calculate_lem fl d (some t) (some n) _ e in
      ap (λ y. y.gpu_transformer_blocks) here
  block_placement_count t per (some split) n e =
      let (q, host, heavy, light, same) = block_placement_split fl r d t per split n e in
      let (_, _, here) = calculate_lem fl d (some t) (some n) _ heavy in
      ap (λ y. y.gpu_transformer_blocks) same ∙ ap (λ y. y.gpu_transformer_blocks) here

  -- If some positive number of blocks fits both pools, the block search returns a result, and it
  -- puts at least that many blocks on the GPU.
  pub try_block_offload_largest :
      (s : Supply) (t : ℕ) (topology : HardwareMemoryTopology) (split : Option WeightSplit) (m : ℕ)
      → 0 < t
      → 0 < m
      → d.weights_bytes ≤ 2 ^ 53
      → IsCovered d t
      → Divides d split
      → BlocksFit s t split m
      → (fit : HardwareFitResult) × (n : ℕ) × (try_block_offload fl d s t topology split ≡ some fit)
        × (fit.gpu_transformer_blocks ≡ some n)
        × (m ≤ n)
  unfolding try_block_offload offload_result_from_placement
  try_block_offload_largest s t topology split m pos m_pos exact small sum f =
      let (c, e, le) = search_ceiling_covers s t split m pos m_pos exact small sum f in
      let (n, p, rejected, found, best) = search_blocks_largest _ _ c none m f m_pos le in
      let (built, _, _, _) = search_blocks-Feasible _ _ c none found in
      let count = block_placement_count t _ split n built in
      (block_result fl d s topology c (n, p, rejected), n, ground arith, count, best)
