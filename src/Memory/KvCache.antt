-- ===== src/Memory/KvCache.antt =====
-- The KV cache: src/jaull/estimator/kv_cache.py. `none` is the ZeroDivisionError of a configuration
-- with zero attention heads and no head size of its own.
pub mod Size
pub mod Growth
use jaull.Base.{
  ℕ, ◌+◌, ◌*◌, ◌/◌, String, Bool, true, false, not, ◌&&◌, ◌||◌, Option, none, some, List, [], ◌∷◌,
  ◌++◌, any, or_number, is_falsy, is_some, lowers_to, ltb, leb, ◌==◌, if◌then◌else◌,
}
use jaull.Inference.{WeightPrecision}
use jaull.Estimation.{
  EstimateSource, EstimationConfidence, MemoryComponent, KvNote, KvCacheEstimate,
}
use jaull.Model.{ModelConfig, has_flag, truthy_flag}
use jaull.Memory.Policies.{half_bytes_per_parameter}

-- `int(bytes_per_parameter(kv_dtype))`
unfoldable pub dtype_bytes : WeightPrecision → ℕ
unfolding half_bytes_per_parameter
dtype_bytes kv_dtype = half_bytes_per_parameter kv_dtype / 2

-- `_WINDOW_ALWAYS_ACTIVE_MODEL_TYPES`
unfoldable pub is_always_windowed : Option String → Bool
is_always_windowed none = false
is_always_windowed (some name) = lowers_to "mistral" name || lowers_to "mixtral" name

-- The context to size for, what there is to note, and whether the decision is an assumption.
pub record Window : Type 0 where
  pub context : ℕ
  pub note : Option KvNote
  pub assumed : Bool

-- The decision for a window that is shorter than the requested context.
unfoldable pub decide_window : Option Bool → Bool → ℕ → ℕ → Window
decide_window (some true) always window context = record {
  context = window;
  note = some KvNote.capped_by_config;
  assumed = false;
}
decide_window (some false) always window context = record {
  context = context;
  note = some KvNote.inactive_window;
  assumed = false;
}
decide_window none always window context =
    if always
    then record { context = window; note = some KvNote.capped_by_architecture; assumed = true }
    else record { context = context; note = some KvNote.full_context; assumed = true }

unfoldable pub apply_sliding_window : ModelConfig → ℕ → Window
unfolding decide_window is_always_windowed
apply_sliding_window config context =
    let window = or_number config.sliding_window 0 in
    if is_falsy config.sliding_window || leb context window
    then record { context = context; note = none; assumed = false }
    else decide_window config.use_sliding_window (is_always_windowed config.model_type) window
        context

unfoldable pub is_mixture_of_experts : ModelConfig → Bool
is_mixture_of_experts config =
    any (λ key. has_flag key config.raw_flags)
      ("num_experts" ∷ "num_local_experts" ∷ "moe_intermediate_size" ∷ [])

unfoldable pub detect_exotic_architecture : ModelConfig → Option KvNote
detect_exotic_architecture config =
    let flags = config.raw_flags in
    if truthy_flag "unsupported_kv_head_dimensions" flags
    then some KvNote.unequal_heads
    else if any (λ k. has_flag k flags) ("q_lora_rank" ∷ "kv_lora_rank" ∷ [])
    then some KvNote.latent_attention
    else if any (λ k. has_flag k flags) ("text_config" ∷ "vision_config" ∷ "audio_config" ∷ [])
    then some KvNote.multimodal
    else if has_flag "auto_map" flags
    then some KvNote.custom_code
    else none

unfoldable pub unknown_kv_cache : ℕ → ℕ → ℕ → KvNote → KvCacheEstimate
unknown_kv_cache context_length batch_size dtype reason = record {
  component = record {
    name = "KV cache";
    bytes = none;
    source = EstimateSource.unknown;
    confidence = EstimationConfidence.unknown;
  };
  layers = none;
  kv_heads = none;
  head_dim = none;
  context_length = context_length;
  batch_size = batch_size;
  dtype_bytes = dtype;
  notes = reason ∷ [];
}

-- The three dimensions that every estimate needs.
pub record Dimensions : Type 0 where
  pub layers : ℕ
  pub heads : ℕ
  pub hidden : ℕ

unfoldable pub dimensions : Option ℕ → Option ℕ → Option ℕ → Option Dimensions
dimensions (some layers) (some heads) (some hidden) =
    some (record { layers = layers; heads = heads; hidden = hidden })
dimensions _ _ _ = none

-- `hidden // heads` raises on zero heads.
unfoldable pub head_size : Option ℕ → Dimensions → Option ℕ
head_size explicit dims =
    if not (is_falsy explicit)
    then explicit
    else if dims.heads == 0
    then none
    else some (dims.hidden / dims.heads)

-- `config.num_key_value_heads and config.num_key_value_heads < heads`
abbrev is_grouped : Option ℕ → ℕ → Bool
is_grouped kv heads = not (is_falsy kv) && ltb (or_number kv 0) heads

abbrev note_if : Bool → KvNote → List KvNote
note_if b note = if b then note ∷ [] else []

abbrev note_of : Option KvNote → List KvNote
note_of none = []
note_of (some note) = note ∷ []

-- The estimate, once every dimension is known.
unfoldable pub sized_kv_cache : ModelConfig → Dimensions → ℕ → Window → ℕ → ℕ → ℕ → KvCacheEstimate
unfolding is_mixture_of_experts
sized_kv_cache config dims head_dim window batch_size dtype concurrent_users =
    let kv_heads = or_number config.num_key_value_heads dims.heads in
    let moe = is_mixture_of_experts config in
    record {
      component = record {
        name = "KV cache";
        bytes = some (
            2 * dims.layers * kv_heads * head_dim * window.context * batch_size * concurrent_users
            * dtype);
        source = EstimateSource.derived;
        confidence =
            if window.assumed || moe
            then EstimationConfidence.medium
            else EstimationConfidence.high;
      };
      layers = some dims.layers;
      kv_heads = some kv_heads;
      head_dim = some head_dim;
      context_length = window.context;
      batch_size = batch_size;
      dtype_bytes = dtype;
      notes =
          note_of window.note
          ++ note_if moe KvNote.mixture_of_experts
          ++ note_if (is_grouped config.num_key_value_heads dims.heads) KvNote.grouped_query
          ++ note_if (ltb 1 concurrent_users) KvNote.concurrent_sessions;
    }

-- A configuration of the standard attention shape, with all dimensions known.
unfoldable pub estimate_standard : ModelConfig → Dimensions → ℕ → ℕ → ℕ → ℕ → Option KvCacheEstimate
unfolding sized_kv_cache head_size
estimate_standard config dims context_length batch_size dtype concurrent_users =
    elim (head_size config.head_dim dims) [
      | none ↦ none
      | some head_dim ↦ some (
          sized_kv_cache config dims head_dim (apply_sliding_window config context_length)
            batch_size dtype concurrent_users)
    ]

unfoldable pub estimate_kv_cache :
    Option ModelConfig → ℕ → ℕ → WeightPrecision → ℕ → Option KvCacheEstimate
unfolding estimate_standard dimensions unknown_kv_cache
estimate_kv_cache none context_length batch_size kv_dtype concurrent_users =
    some (unknown_kv_cache context_length batch_size (dtype_bytes kv_dtype) KvNote.no_config)
estimate_kv_cache (some config) context_length batch_size kv_dtype concurrent_users =
    let dtype = dtype_bytes kv_dtype in
    elim (detect_exotic_architecture config) [
      | some exotic ↦ some (unknown_kv_cache context_length batch_size dtype exotic)
      | none ↦
          elim (dimensions config.num_hidden_layers config.num_attention_heads config.hidden_size) [
            | none ↦ some (unknown_kv_cache context_length batch_size dtype KvNote.missing_fields)
            | some dims ↦
                estimate_standard config dims context_length batch_size dtype concurrent_users
          ]
    ]
