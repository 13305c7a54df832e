-- ===== src/Model/Sums.antt =====
-- The parameter counts are consistent: src/jaull/domain/parameters.py.
use jaull.Base.{
  ℕ, ◌+◌, ◌<◌, ◌≡◌, Bool, false, Option, none, some, arith, Option-cases, ◌==◌, refl, Bool-cases,
  inl, inr, ◌≢◌,
}
use jaull.Model.{ModelConfig}
use jaull.Model.Parameters.{
  ConfigParameterDecomposition, parameter_components, estimate_config_parameter_decomposition,
  estimate_total_parameters_from_config, is_decomposable, known_components,
}

-- The total is the sum of its parts, and is not zero.
pub record IsSum (p : ConfigParameterDecomposition) : Type 0 where
  pub total : p.total_parameters ≡ p.transformer_block_parameters + p.non_block_parameters
  pub non_block : p.non_block_parameters ≡ p.embedding_parameters + p.output_head_parameters
  pub positive : 0 < p.total_parameters

parameter_components-IsSum :
    (config : ModelConfig) (intermediate : ℕ) (tied : Bool) {p : ConfigParameterDecomposition}
    → parameter_components config intermediate tied ≡ some p
    → IsSum p
unfolding parameter_components
parameter_components-IsSum config intermediate tied {p} e = record {
  total = ground arith;
  non_block = ground arith;
  positive = ground arith;
}

known_components-IsSum :
    (config : ModelConfig) (tied : Option Bool) (width : Option ℕ)
    {p : ConfigParameterDecomposition}
    → known_components config tied width ≡ some p
    → IsSum p
unfolding known_components
known_components-IsSum config (some tied) (some width) e =
    parameter_components-IsSum config width tied e
known_components-IsSum config (some tied) none e = cc
known_components-IsSum config none width e = cc

-- The decomposition of a configuration adds up, and its total is not zero.
pub estimate_config_parameter_decomposition-IsSum :
    (config : Option ModelConfig) {p : ConfigParameterDecomposition}
    → estimate_config_parameter_decomposition config ≡ some p
    → IsSum p
unfolding estimate_config_parameter_decomposition
estimate_config_parameter_decomposition-IsSum none e = cc
estimate_config_parameter_decomposition-IsSum (some config) e =
    elim (Bool-cases (is_decomposable config)) [
      | inl fits ↦
          known_components-IsSum config config.tie_word_embeddings config.intermediate_size
            (ground arith)
      | inr refused ↦ absurd (ground arith)
    ]

width-positive :
    (config : ModelConfig) (width : ℕ) (tied : Bool) {p : ConfigParameterDecomposition}
    → parameter_components config width tied ≡ some p
    → (config.hidden_size ≢ none) × (0 < width)
unfolding parameter_components
width-positive config width tied e = (λ no. absurd (ground arith), ground arith)

best_effort_width :
    (config : ModelConfig) (width : ℕ) (tied : Bool) {p : ConfigParameterDecomposition}
    → parameter_components config width tied ≡ some p
    → config.intermediate_size ≡ some width
    → config.tie_word_embeddings ≡ some tied
    → estimate_total_parameters_from_config (some config) ≡ some p.total_parameters
unfolding estimate_total_parameters_from_config parameter_components
best_effort_width config width tied {p} e w t =
    let (known, positive) = width-positive config width tied e in
    elim (Option-cases config.hidden_size) [
      | inl nothing ↦ absurd (known nothing)
      | inr (hidden, h) ↦
          let nonzero : (width == 0) ≡ false = ground arith in rw (h, w, t, nonzero, e) refl
    ]

-- Whenever the strict estimate returns a decomposition, the best-effort total is its total.
decomposition_total :
    (config : Option ModelConfig) {p : ConfigParameterDecomposition}
    → estimate_config_parameter_decomposition config ≡ some p
    → estimate_total_parameters_from_config config ≡ some p.total_parameters
unfolding estimate_config_parameter_decomposition known_components
decomposition_total none e = cc
decomposition_total (some config) {p} e = elim (Bool-cases (is_decomposable config)) [
  | inr refused ↦ absurd (ground arith)
  | inl fits ↦ elim (Option-cases config.tie_word_embeddings) [
    | inl nothing ↦ absurd (ground arith)
    | inr (tied, t) ↦ elim (Option-cases config.intermediate_size) [
      | inl nothing ↦ absurd (ground arith)
      | inr (width, w) ↦ best_effort_width config width tied {p = p} (ground arith) w t
    ]
  ]
]
