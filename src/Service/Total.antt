-- ===== src/Service/Total.antt =====
-- The estimate is always produced, once the KV cache is.
use jaull.Base.{
  ℕ, ◌≡◌, Bool, Option, none, some, arith, refl, sym, ap, ◌∙◌, Option-cases, Bool-cases, ◌⊎◌, inl,
  inr,
}
use jaull.Hardware.{HardwareProfile}
use jaull.Inference.{InferenceConfiguration}
use jaull.Estimation.{WeightEstimate, KvCacheEstimate, TransformerBlockWeightDecomposition}
use jaull.Model.{ModelConfig}
use jaull.Fit.Floats.{Floats, IsRounded}
use jaull.Fit.Placement.{Demand}
use jaull.Fit.Conserve.{IsExact}
use jaull.Memory.KvCache.{estimate_kv_cache, unknown_kv_cache}
use jaull.Memory.KvCache.Growth.{estimate_kv_cache_layers}
use jaull.Memory.Weights.Shares.{add_transformer_block_decomposition, attach, attach_raises}
use jaull.Memory.Weights.Conserve.{
  HasDecomposition, layers_of, add_transformer_block_decomposition-HasDecomposition,
}
use jaull.Compatibility.Components.{ComponentAssessment, demand_of}
use jaull.Compatibility.Outcome.{Reports, assess_components_with_fit-Reports}
use jaull.Service.{Sizes, sizes, components_of, finish, or_raise, estimate_sizes}
use jaull.Service.Safe.{Matches, Returns, Returns-value, assess-Returns}

-- The decomposition does not touch the estimate's component.
attach-component :
    (estimate : WeightEstimate) (config : ModelConfig) (bytes blocks : Option ℕ)
    → (attach estimate config bytes blocks).component ≡ estimate.component
unfolding attach
attach-component estimate config (some total) (some blocks) = ground arith
attach-component estimate config (some total) none = refl
attach-component estimate config none blocks = refl

add-component :
    (estimate : WeightEstimate) (config : Option ModelConfig) {weights : WeightEstimate}
    → add_transformer_block_decomposition estimate config ≡ some weights
    → weights.component ≡ estimate.component
unfolding add_transformer_block_decomposition
add-component estimate none {weights} made =
    let same : estimate ≡ weights = ground arith in ap (λ w. w.component) (sym same)
add-component estimate (some config) {weights} made =
    elim (Bool-cases (attach_raises config estimate.component.bytes config.num_hidden_layers)) [
      | inl raises ↦ absurd (ground (arith, raises))
      | inr goes ↦
          let same : attach estimate config estimate.component.bytes config.num_hidden_layers
              ≡ weights =
            ground (arith, goes) in
          ap (λ w. w.component) (sym same)
          ∙ attach-component estimate config estimate.component.bytes config.num_hidden_layers
    ]

-- A decomposition of known weights over the configuration's layers matches those of the KV cache.
decomposition-Matches :
    (bytes layers kv_layers : Option ℕ) {n : ℕ} (w : Option TransformerBlockWeightDecomposition)
    → ((d : TransformerBlockWeightDecomposition) → w ≡ some d → HasDecomposition bytes layers d)
    → bytes ≡ some n
    → (kv_layers ≡ none) ⊎ (kv_layers ≡ layers)
    → Matches n kv_layers w
decomposition-Matches bytes layers none none has known from = tt
decomposition-Matches bytes layers (some k) none has known from = tt
decomposition-Matches bytes layers none (some d) has known from =
    let (total, blocks, b, l, parts) = has d refl in ground (arith, parts.weights)
decomposition-Matches bytes layers (some k) (some d) has known from =
    let (total, blocks, b, l, parts) = has d refl in
    (ground (arith, parts.weights), ground (arith, parts.layers))

known_layers :
    (config : Option ModelConfig) (cfg : InferenceConfiguration) {kv : KvCacheEstimate}
    → estimate_kv_cache config cfg.context_length cfg.batch_size cfg.kv_cache_dtype
        cfg.concurrent_users
      ≡ some kv
    → (kv.layers ≡ none) ⊎ (kv.layers ≡ layers_of config)
unfolding estimate_kv_cache unknown_kv_cache
known_layers none cfg e = inl (ground arith)
known_layers (some config) cfg e = estimate_kv_cache_layers config _ _ _ _ e

module _ (fl : Floats) (r : IsRounded fl) where
  finish-Returns :
      (is_gguf : Bool) (cfg : InferenceConfiguration) (s : Sizes) (found : ComponentAssessment)
      → Reports found.fit found.assessment
      → Returns (finish is_gguf cfg s found)
  unfolding finish
  finish-Returns is_gguf cfg s found reports = elim (Option-cases found.assessment) [
    | inl nothing ↦ absurd (rw (nothing) at reports)
    | inr (a, e) ↦ rw (e, finish, Returns) tt
  ]

  -- Whenever neither the decomposition nor the KV cache estimate of a request divides by zero, and its byte counts are held
  -- exactly by doubles, the memory estimate is returned: no `ValueError` of the placement analysis is
  -- raised and no assertion of the assessment fails.
  pub estimate_sizes-Returns :
      (is_gguf : Bool) (w : WeightEstimate) (config : Option ModelConfig)
      (hardware : HardwareProfile) (cfg : InferenceConfiguration) {weights : WeightEstimate}
      {kv : KvCacheEstimate}
      → w.transformer_block_decomposition ≡ none
      → add_transformer_block_decomposition w config ≡ some weights
      → estimate_kv_cache config cfg.context_length cfg.batch_size cfg.kv_cache_dtype
          cfg.concurrent_users
        ≡ some kv
      → ((d : Demand)
          → (let c = components_of (sizes fl is_gguf cfg weights kv) in
              demand_of c c.weights_bytes c.kv_cache_bytes c.overhead_bytes)
            ≡ some d
          → IsExact d)
      → Returns (estimate_sizes fl is_gguf w config hardware cfg)
  unfolding estimate_sizes or_raise sizes components_of
  estimate_sizes-Returns is_gguf w config hardware cfg {weights} {kv} fresh attached made exact =
      let s = sizes fl is_gguf cfg weights kv in
      let c = components_of s in
      let (found, e) = Returns-value _ (
        assess-Returns fl c hardware cfg.target_device weights.transformer_block_decomposition
          (λ n known.
            decomposition-Matches w.component.bytes (layers_of config) kv.layers
              weights.transformer_block_decomposition
              (λ d. add_transformer_block_decomposition-HasDecomposition w config fresh attached)
              (sym (ap (λ m. m.bytes) (add-component w config attached)) ∙ known)
              (known_layers config cfg made))) in
      let reports =
        assess_components_with_fit-Reports fl r c hardware cfg.target_device
          weights.transformer_block_decomposition exact e in
      rw (attached, made, e, estimate_sizes, Returns) (finish-Returns is_gguf cfg s found reports)
