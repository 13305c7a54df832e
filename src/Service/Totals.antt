-- ===== src/Service/Totals.antt =====
-- The total, its parts, and the confidence of an estimate.
use mathlib.Core.List.{Memᴰ}
use jaull.Base.{
  ℕ, ◌+◌, ◌≤◌, ◌≡◌, Bool, Option, none, some, List, [], ◌∷◌, or_number, arith, refl, ltb,
  Bool-cases, Option-cases, ◌==◌, inl, inr, if◌then◌else◌,
}
use jaull.Inference.{InferenceConfiguration}
use jaull.Estimation.{EstimationConfidence, WeightEstimate, KvCacheEstimate}
use jaull.Fit.Floats.{Floats}
use jaull.Fit.Placement.{Demand}
use jaull.Fit.Results.{gpu_required_if_resident}
use jaull.Memory.Policies.{
  gguf_overhead_base_bytes, overhead_base_bytes, gguf_overhead_weight_percent,
  overhead_weight_percent,
}
use jaull.Memory.Overhead.{estimate_overhead, overhead_bytes}
use jaull.Compatibility.Components.{demand_of}
use jaull.Service.{
  sum_components, confidence_order, least_confidence, combined_confidence, headroom, sizes,
  components_of, device_reserve_component, safety_margin_component, bytes_of, margin_bytes,
}

-- Every known component is at most the sum, which is then known.
sum_components-covers :
    (values : List (Option ℕ)) {n : ℕ}
    → Memᴰ (some n) values
    → (total : ℕ) × (sum_components values ≡ some total) × (n ≤ total)
unfolding sum_components
sum_components-covers [] t = elim t [ ]
sum_components-covers (none ∷ values) (Memᴰ.head e) = cc
sum_components-covers (none ∷ values) (Memᴰ.tail t) = sum_components-covers values t
sum_components-covers (some m ∷ values) (Memᴰ.head e) = (_, refl, ground arith)
sum_components-covers (some m ∷ values) (Memᴰ.tail t) =
    let (total, e, le) = sum_components-covers values t in (_, refl, ground arith)

least_confidence-le :
    (best : EstimationConfidence) (values : List EstimationConfidence)
    → confidence_order (least_confidence best values) ≤ confidence_order best
unfolding least_confidence
least_confidence-le best [] = omega arith
least_confidence-le best (c ∷ values) =
    elim (Bool-cases (ltb (confidence_order c) (confidence_order best))) [
      | inl lower ↦ let le = least_confidence-le c values in rw (lower) (ground arith)
      | inr higher ↦ rw (higher) (least_confidence-le best values)
    ]

least_confidence-lower :
    (best : EstimationConfidence) (values : List EstimationConfidence) {c : EstimationConfidence}
    → Memᴰ c values
    → confidence_order (least_confidence best values) ≤ confidence_order c
unfolding least_confidence
least_confidence-lower best [] t = elim t [ ]
least_confidence-lower best (c ∷ values) (Memᴰ.head e) =
    elim (Bool-cases (ltb (confidence_order c) (confidence_order best))) [
      | inl lower ↦ rw (lower, e) (least_confidence-le c values)
      | inr higher ↦ let le = least_confidence-le best values in rw (higher, e) (ground arith)
    ]
least_confidence-lower best (c ∷ values) (Memᴰ.tail t) =
    least_confidence-lower (if ltb (confidence_order c) (confidence_order best) then c else best)
      values t

-- The combined confidence is at most that of each of its parts.
combined_confidence-lower :
    (values : List EstimationConfidence) {c : EstimationConfidence}
    → Memᴰ c values
    → confidence_order (combined_confidence values) ≤ confidence_order c
unfolding combined_confidence
combined_confidence-lower [] t = elim t [ ]
combined_confidence-lower (c ∷ values) (Memᴰ.head e) = rw (e) (least_confidence-le c values)
combined_confidence-lower (c ∷ values) (Memᴰ.tail t) = least_confidence-lower c values t

module _ (fl : Floats) where
  headroom_total :
      (w k o reserve percent : ℕ)
      → let subtotal = sum_components (some w ∷ some k ∷ some o ∷ some reserve ∷ []) in
        let margin = safety_margin_component fl subtotal percent in
        sum_components (subtotal ∷ bytes_of margin ∷ [])
        ≡ some (k + o + reserve + w + margin_bytes margin)
  unfolding safety_margin_component sum_components bytes_of
  headroom_total w k o reserve percent = elim (Bool-cases (percent == 0)) [
    | inl off ↦ rw (off) (ground arith)
    | inr on ↦ rw (on) (ground arith)
  ]

  -- With weights and KV cache known, the total that a pinned device is compared with is the sum that
  -- the placement analysis compares with the VRAM.
  sizes_total :
      (is_gguf : Bool) (cfg : InferenceConfiguration) (w : WeightEstimate) (kv : KvCacheEstimate)
      {d : Demand}
      → let c = components_of (sizes fl is_gguf cfg w kv) in
        demand_of c c.weights_bytes c.kv_cache_bytes c.overhead_bytes ≡ some d
        → c.total_bytes ≡ some (gpu_required_if_resident d)
  unfolding sizes components_of demand_of device_reserve_component estimate_overhead
      gpu_required_if_resident
  sizes_total is_gguf cfg w kv {d} h = elim (Option-cases w.component.bytes) [
    | inl nothing ↦ absurd (ground arith)
    | inr (weights, e) ↦ elim (Option-cases kv.component.bytes) [
      | inl nothing ↦ absurd (ground arith)
      | inr (cache, k) ↦
          let o =
            overhead_bytes (some weights)
              (if is_gguf then gguf_overhead_base_bytes else overhead_base_bytes)
              (if is_gguf then gguf_overhead_weight_percent else overhead_weight_percent) in
          let rule = headroom is_gguf cfg.device_reserve_bytes cfg.safety_margin_percent in
          let total = headroom_total weights cache o rule.0 rule.1 in
          let nonzero : or_number (some rule.0) 0 ≡ rule.0 = ground arith in
          let goal : gpu_required_if_resident d
              ≡ cache
                + o
                + rule.0
                + weights
                + margin_bytes (
                    safety_margin_component fl
                      (sum_components (some weights ∷ some cache ∷ some o ∷ some rule.0 ∷ []))
                      rule.1) =
            ground arith in
          rw (goal, e, k) total
    ]
  ]
