-- ===== src/Service/Again.antt =====
-- Analysing an estimate again: `analyze_estimate` of src/jaull/estimator/hardware_fit.py.
use jaull.Base.{
  ◌≡◌, Bool, Option, none, some, [], ◌∷◌, arith, refl, ap, ◌∙◌, or_number, Option-cases, Bool-cases,
  inl, inr,
}
use jaull.Hardware.{HardwareProfile}
use jaull.Inference.{InferenceConfiguration}
use jaull.Estimation.{CompatibilityAssessment, WeightEstimate, HardwareFitResult}
use jaull.Model.{ModelConfig}
use jaull.Fit.Floats.{Floats}
use jaull.Fit.Placement.{Demand}
use jaull.Fit.Analyze.{Checked, ◌>>=◌, >>=-eq-ok, analyze_components}
use jaull.Memory.KvCache.{estimate_kv_cache}
use jaull.Memory.Weights.Shares.{add_transformer_block_decomposition}
use jaull.Compatibility.Components.{
  Components, ComponentAssessment, demand_of, is_auto, assess_components_with_fit,
}
use jaull.Service.{
  MemoryEstimate, Sizes, sizes, components_of, margin_bytes, finish, or_raise, estimate_sizes,
  with_confidence, combined_confidence,
}

-- The components of an estimate that is already built.
unfoldable pub estimate_components : MemoryEstimate → Components
estimate_components m = record {
  weights_bytes = m.weights.component.bytes;
  kv_cache_bytes = m.kv_cache.component.bytes;
  overhead_bytes = m.runtime_overhead.component.bytes;
  device_reserve_bytes = or_number m.device_reserve.bytes 0;
  safety_margin_bytes = margin_bytes m.safety_margin;
  total_bytes = m.total_bytes;
  total_transformer_blocks = m.kv_cache.layers;
}

unfoldable pub analyze_estimate :
    Floats → MemoryEstimate → HardwareProfile → Checked (Option HardwareFitResult)
unfolding estimate_components demand_of analyze_components
analyze_estimate fl m hardware =
    let c = estimate_components m in
    elim (demand_of c c.weights_bytes c.kv_cache_bytes c.overhead_bytes) [
      | none ↦ Checked.ok none
      | some demand ↦ do
        fit ←
            analyze_components fl demand hardware m.kv_cache.layers none
              m.weights.transformer_block_decomposition
        Checked.ok (some fit)
    ]

-- The estimate of `finish`.
abbrev built_from :
    Bool
    → InferenceConfiguration
    → Sizes
    → ComponentAssessment
    → CompatibilityAssessment
    → MemoryEstimate
built_from is_gguf cfg s found a = record {
  is_gguf = is_gguf;
  inference_configuration = cfg;
  weights = s.weights;
  kv_cache = s.kv_cache;
  runtime_overhead = s.runtime_overhead;
  device_reserve = s.device_reserve;
  safety_margin = s.safety_margin;
  total_bytes = s.total_bytes;
  assessment =
      with_confidence
        (combined_confidence (
          s.weights.component.confidence ∷ s.kv_cache.component.confidence
          ∷ s.runtime_overhead.component.confidence ∷ a.confidence ∷ []))
        a;
  hardware_fit = found.fit;
}

module _ (fl : Floats) where
  -- The fit that was reported is the analysis of the demand.
  reported_fit :
      (c : Components) (hardware : HardwareProfile) (cfg : InferenceConfiguration)
      (weights : WeightEstimate) {found : ComponentAssessment} {fit : HardwareFitResult}
      → assess_components_with_fit fl c hardware cfg.target_device
          weights.transformer_block_decomposition
        ≡ Checked.ok found
      → found.fit ≡ some fit
      → (d : Demand) × (demand_of c c.weights_bytes c.kv_cache_bytes c.overhead_bytes ≡ some d)
        × (analyze_components fl d hardware c.total_transformer_blocks none
              weights.transformer_block_decomposition
            ≡ Checked.ok fit)
  unfolding assess_components_with_fit
  reported_fit c hardware cfg weights {found} {fit} e f =
      elim (Option-cases (demand_of c c.weights_bytes c.kv_cache_bytes c.overhead_bytes)) [
        | inl missing ↦ absurd (ground arith)
        | inr (d, known) ↦ elim (Bool-cases (is_auto cfg.target_device)) [
          | inr pinned ↦ absurd (ground arith)
          | inl auto ↦
              let (again, ran, made) =
                >>=-eq-ok
                  (analyze_components fl d hardware c.total_transformer_blocks none
                    weights.transformer_block_decomposition)
                  _ (rw (known, auto, assess_components_with_fit) at e) in
              let same : again ≡ fit = ground (arith, made) in (d, known, ran ∙ ap Checked.ok same)
        ]
      ]

  analyze_again :
      (m : MemoryEstimate) (hardware : HardwareProfile) {d : Demand} {fit : HardwareFitResult}
      → (let c = estimate_components m in
          demand_of c c.weights_bytes c.kv_cache_bytes c.overhead_bytes)
        ≡ some d
      → analyze_components fl d hardware m.kv_cache.layers none
          m.weights.transformer_block_decomposition
        ≡ Checked.ok fit
      → analyze_estimate fl m hardware ≡ Checked.ok (some fit)
  unfolding analyze_estimate
  analyze_again m hardware known ran = rw (known, ran, analyze_estimate) refl

  again_from :
      (is_gguf : Bool) (cfg : InferenceConfiguration) (s : Sizes) (found : ComponentAssessment)
      (hardware : HardwareProfile) {m : MemoryEstimate} {fit : HardwareFitResult}
      → assess_components_with_fit fl
          (components_of s)
          hardware
          cfg.target_device
          s.weights.transformer_block_decomposition
        ≡ Checked.ok found
      → finish is_gguf cfg s found ≡ Checked.ok m
      → m.hardware_fit ≡ some fit
      → analyze_estimate fl m hardware ≡ Checked.ok (some fit)
  unfolding finish components_of estimate_components
  again_from is_gguf cfg s found hardware {m} {fit} assessed e f =
      elim (Option-cases found.assessment) [
        | inl nothing ↦ absurd (ground arith)
        | inr (a, known) ↦
            let built = built_from is_gguf cfg s found a in
            let same : built ≡ m = ground arith in
            let (d, demand, ran) =
              reported_fit (components_of s) hardware cfg s.weights assessed
                (ap (λ x. x.hardware_fit) same ∙ f) in
            rw (← same) (analyze_again built hardware demand ran)
      ]

  -- Analysing a returned estimate again gives the placement that it carries.
  pub analyze_estimate_same :
      (is_gguf : Bool) (w : WeightEstimate) (config : Option ModelConfig)
      (hardware : HardwareProfile) (cfg : InferenceConfiguration) {m : MemoryEstimate}
      {fit : HardwareFitResult}
      → estimate_sizes fl is_gguf w config hardware cfg ≡ Checked.ok m
      → m.hardware_fit ≡ some fit
      → analyze_estimate fl m hardware ≡ Checked.ok (some fit)
  unfolding estimate_sizes sizes
  analyze_estimate_same is_gguf w config hardware cfg {m} {fit} e f =
      let (weights, _, e0) =
        >>=-eq-ok (or_raise (add_transformer_block_decomposition w config)) _ e in
      let (kv, _, e1) =
        >>=-eq-ok
          (or_raise (
            estimate_kv_cache config cfg.context_length cfg.batch_size cfg.kv_cache_dtype
              cfg.concurrent_users))
          _ e0 in
      let s = sizes fl is_gguf cfg weights kv in
      let (found, assessed, e2) =
        >>=-eq-ok
          (assess_components_with_fit fl (components_of s) hardware cfg.target_device
            weights.transformer_block_decomposition)
          _ e1 in
      again_from is_gguf cfg s found hardware assessed e2 f
