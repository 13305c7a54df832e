-- ===== src/Model/Parameters.antt =====
-- Parameter counts derived from a configuration: src/jaull/domain/parameters.py.
use jaull.Base.{
  ℕ, ◌+◌, ◌*◌, ◌/◌, ◌%◌, String, Bool, true, false, not, ◌&&◌, ◌||◌, Option, none, some, List, [],
  ◌∷◌, any, or_number, is_falsy, is_some, lowers_to, ltb, ◌==◌, if◌then◌else◌,
}
use jaull.Model.{ModelConfig, FlagValue, Sign, get_flag}

pub record ConfigParameterDecomposition : Type 0 where
  pub total_parameters : ℕ
  pub transformer_block_parameters : ℕ
  pub non_block_parameters : ℕ
  pub embedding_parameters : ℕ
  pub output_head_parameters : ℕ
  pub total_transformer_blocks : ℕ

abbrev supported_gated_mlp_model_types : List String
supported_gated_mlp_model_types =
    "gemma" ∷ "gemma2" ∷ "gemma3" ∷ "llama" ∷ "mistral" ∷ "phi3" ∷ "qwen2" ∷ "qwen3" ∷ []

abbrev unsupported_decomposition_flag_names : List String
unsupported_decomposition_flag_names =
    "audio_config" ∷ "auto_map" ∷ "kv_lora_rank" ∷ "moe_intermediate_size" ∷ "num_experts"
    ∷ "num_experts_per_tok" ∷ "num_local_experts" ∷ "q_lora_rank" ∷ "qk_nope_head_dim"
    ∷ "qk_rope_head_dim" ∷ "text_config" ∷ "v_head_dim" ∷ "vision_config" ∷ []

-- A value that shows an unsupported feature: true, a positive number, or any other object.
shows_feature : Option FlagValue → Bool
shows_feature none = false
shows_feature (some FlagValue.null) = false
shows_feature (some (FlagValue.boolean b)) = b
shows_feature (some (FlagValue.number Sign.positive)) = true
shows_feature (some (FlagValue.number _)) = false
shows_feature (some (FlagValue.other _)) = true

pub has_unsupported_decomposition_flags : ModelConfig → Bool
unfolding shows_feature
has_unsupported_decomposition_flags config =
    any (λ name. shows_feature (get_flag name config.raw_flags))
      unsupported_decomposition_flag_names

-- The sums, once every dimension is known to be positive.
parameter_sums :
    (layers hidden heads vocab intermediate head_dim kv_heads : ℕ)
    → Bool
    → ConfigParameterDecomposition
parameter_sums layers hidden heads vocab intermediate head_dim kv_heads tied =
    let attention_per_block =
      hidden * heads * head_dim + 2 * hidden * kv_heads * head_dim + hidden * hidden in
    let ffn_per_block = 3 * hidden * intermediate in
    let block = layers * (attention_per_block + ffn_per_block) in
    let embedding = vocab * hidden in
    let output_head = if tied then 0 else vocab * hidden in
    record {
      total_parameters = block + (embedding + output_head);
      transformer_block_parameters = block;
      non_block_parameters = embedding + output_head;
      embedding_parameters = embedding;
      output_head_parameters = output_head;
      total_transformer_blocks = layers;
    }

unfoldable pub parameter_components : ModelConfig → ℕ → Bool → Option ConfigParameterDecomposition
unfolding parameter_sums
parameter_components config intermediate_size tie_word_embeddings =
    let layers = or_number config.num_hidden_layers 0 in
    let hidden = or_number config.hidden_size 0 in
    let heads = or_number config.num_attention_heads 0 in
    let vocab = or_number config.vocab_size 0 in
    if is_falsy config.num_hidden_layers
      || is_falsy config.hidden_size
      || is_falsy config.num_attention_heads
      || is_falsy config.vocab_size
      || intermediate_size == 0
    then none
    else (let head_dim = or_number config.head_dim (hidden / heads) in
        let kv_heads = or_number config.num_key_value_heads heads in
        if head_dim == 0 || kv_heads == 0
        then none
        else (let sums =
              parameter_sums layers hidden heads vocab intermediate_size head_dim kv_heads
                tie_word_embeddings in
            if sums.total_parameters == 0 then none else some sums))

-- No explicit head size, and the hidden size is not a multiple of the heads. Zero heads are told
-- apart by `divides_by_zero`.
unfoldable pub uneven_heads : Option ℕ → Option ℕ → Option ℕ → Bool
uneven_heads none (some hidden) (some heads) = not (hidden % heads == 0)
uneven_heads _ _ _ = false

-- More KV heads than attention heads.
unfoldable pub too_many_kv_heads : Option ℕ → Option ℕ → Bool
too_many_kv_heads kv none = false
too_many_kv_heads kv (some heads) = ltb heads (or_number kv heads)

unfoldable pub is_supported_type : Option String → Bool
is_supported_type none = false
is_supported_type (some name) = any (λ known. lowers_to known name) supported_gated_mlp_model_types

zero_heads : Option ℕ → Option ℕ → Option ℕ → Bool
zero_heads none (some hidden) (some heads) = heads == 0
zero_heads _ _ _ = false

-- The test of the heads is reached and computes `hidden_size % 0`: a ZeroDivisionError.
unfoldable pub divides_by_zero : ModelConfig → Bool
unfolding is_supported_type has_unsupported_decomposition_flags zero_heads
divides_by_zero config =
    is_supported_type config.model_type
    && is_some config.tie_word_embeddings
    && is_some config.intermediate_size
    && not (has_unsupported_decomposition_flags config)
    && zero_heads config.head_dim config.hidden_size config.num_attention_heads

-- The checks before the sums.
unfoldable pub is_decomposable : ModelConfig → Bool
unfolding is_supported_type has_unsupported_decomposition_flags uneven_heads too_many_kv_heads
is_decomposable config =
    is_supported_type config.model_type
    && not (has_unsupported_decomposition_flags config)
    && not (uneven_heads config.head_dim config.hidden_size config.num_attention_heads)
    && not (too_many_kv_heads config.num_key_value_heads config.num_attention_heads)

-- Both optional fields must be known.
unfoldable pub known_components :
    ModelConfig → Option Bool → Option ℕ → Option ConfigParameterDecomposition
unfolding parameter_components
known_components config (some tied) (some intermediate) =
    parameter_components config intermediate tied
known_components config _ _ = none

-- What is returned; where `divides_by_zero` holds, the callers see the exception instead.
unfoldable pub estimate_config_parameter_decomposition :
    Option ModelConfig → Option ConfigParameterDecomposition
unfolding is_decomposable known_components
estimate_config_parameter_decomposition none = none
estimate_config_parameter_decomposition (some config) =
    if is_decomposable config
    then known_components config config.tie_word_embeddings config.intermediate_size
    else none

-- The best-effort total of the capability evidence: absent width is four times the hidden size,
-- unknown tying counts as untied.
unfoldable pub estimate_total_parameters_from_config : Option ModelConfig → Option ℕ
estimate_total_parameters_from_config none = none
estimate_total_parameters_from_config (some config) = elim config.hidden_size [
  | none ↦ none
  | some hidden ↦
      elim (parameter_components config (or_number config.intermediate_size (4 * hidden))
        (elim config.tie_word_embeddings [ none ↦ false | some tied ↦ tied ])) [
          | none ↦ none
          | some components ↦ some components.total_parameters
        ]
]
