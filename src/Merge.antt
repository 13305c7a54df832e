-- ===== src/Merge.antt =====
-- A GGUF header combined with the configuration of the base model: src/jaull/metadata/config_merger.py.
-- Texts are code points. `architectures`, which only a report reads, and the dictionaries that are
-- passed through (`rope_scaling`, `quantization_config`) are left out; of a conflict, its field.
pub mod Agreement
use jaull.Base.{
  ℕ, ◌/◌, String, Bool, true, false, not, ◌&&◌, Option, none, some, List, [], ◌∷◌, ◌++◌, any, codes,
  keep, map, is_some, or_else, same_codes, ltb, ◌==◌, if◌then◌else◌,
}
use jaull.Base.Int.{ℤ, pos, negsuc}
use jaull.Model.{ModelConfig, FlagValue}
use jaull.Gguf.Values.{Value}
use jaull.Gguf.Header.{Text, Dict, GgufHeaderMetadata, lookup, int_or_none}

-- The sources that `merge` names.
pub data ConfigurationSource : Type 0 where
  gguf_header base_model_config : ConfigurationSource

-- The base configuration, with the field that `ModelConfig` of this library leaves out.
pub record BaseConfig : Type 0 where
  pub config : ModelConfig
  pub max_position_embeddings : Option ℕ

-- The merged configuration; what comes from the header alone is an integer of any sign.
pub record MergedConfig : Type 0 where
  pub model_type : Option Text
  pub max_position_embeddings : Option ℤ
  pub hidden_size : Option ℤ
  pub num_hidden_layers : Option ℤ
  pub num_attention_heads : Option ℤ
  pub num_key_value_heads : Option ℤ
  pub head_dim : Option ℤ
  pub torch_dtype : Option String
  pub intermediate_size : Option ℕ
  pub sliding_window : Option ℕ
  pub use_sliding_window : Option Bool
  pub tie_word_embeddings : Option Bool
  pub vocab_size : Option ℕ
  pub raw_flags : List (String × FlagValue)

pub record EnrichedConfig : Type 0 where
  pub config : MergedConfig
  pub sources : List (String × ConfigurationSource)
  pub conflicts : List String

unfoldable pub same_int : ℤ → ℤ → Bool
same_int (pos a) (pos b) = a == b
same_int (negsuc a) (negsuc b) = a == b
same_int _ _ = false

-- What `pick` notes of a field: its source, and whether the two sides differ.
pub record Noted : Type 0 where
  pub field : String
  pub source : Option ConfigurationSource
  pub conflict : Bool

unfoldable pub note {ℓ} : {A : Type ℓ} → (A → A → Bool) → String → Option A → Option A → Noted
note same field none none = record { field = field; source = none; conflict = false }
note same field none (some b) = record {
  field = field;
  source = some ConfigurationSource.base_model_config;
  conflict = false;
}
note same field (some h) none = record {
  field = field;
  source = some ConfigurationSource.gguf_header;
  conflict = false;
}
note same field (some h) (some b) = record {
  field = field;
  source = some ConfigurationSource.gguf_header;
  conflict = not (same h b);
}

-- A value of one side, where there is the side.
abbrev pub from {ℓ κ} : {A : Type ℓ} {B : Type κ} → Option A → (A → Option B) → Option B
from none f = none
from (some a) f = f a

abbrev integer_of : Option ℕ → Option ℤ
integer_of none = none
integer_of (some n) = some (pos n)

abbrev text_of : Option String → Option Text
text_of none = none
text_of (some s) = some (codes s)

-- `header.raw_kv.get(f"{header.architecture}.{name}")`, as an integer.
unfoldable pub attention_key : String → GgufHeaderMetadata → Option ℤ
unfolding lookup
attention_key name header = int_or_none (
    lookup
      ((elim header.architecture [ none ↦ codes "None" | some architecture ↦ architecture ])
        ++ b'.' ∷ codes name)
      header.raw_kv)

-- `value or None` for a text.
abbrev nonempty : Option Text → Option Text
nonempty (some (c ∷ s)) = some (c ∷ s)
nonempty _ = none

-- `hidden // heads`, rounded down.
unfoldable pub floor_div : ℤ → ℕ → ℤ
floor_div (pos a) b = pos (a / b)
floor_div (negsuc a) b = negsuc (a / b)

-- The dimension of a key: the merged one, or the width divided among the heads.
unfoldable pub key_dim : Option ℤ → Option ℤ → Option ℤ → Option ℤ
unfolding floor_div
key_dim (some d) hidden heads = some d
key_dim none (some hidden) (some (pos heads)) =
    if ltb 0 heads then some (floor_div hidden heads) else none
key_dim none _ _ = none

-- `raw_flags[name] = value`
abbrev set_flag : String → FlagValue → List (String × FlagValue) → List (String × FlagValue)
set_flag name value [] = (name, value) ∷ []
set_flag name value ((key, old) ∷ flags) =
    let rest = set_flag name value flags in
    if same_codes (codes key) (codes name) then (key, value) ∷ flags else (key, old) ∷ rest

abbrev composite_flags : List String
composite_flags = "text_config" ∷ "vision_config" ∷ "audio_config" ∷ []

abbrev without_composites : List (String × FlagValue) → List (String × FlagValue)
without_composites flags =
    keep (λ flag. not (any (λ name. same_codes (codes name) (codes flag.0)) composite_flags)) flags

-- Whether the value dimension is stated and is not the key's.
unfoldable pub is_uneven : Option ℤ → Option ℤ → Bool
unfolding same_int
is_uneven none key = false
is_uneven (some v) none = true
is_uneven (some v) (some k) = not (same_int v k)

unfoldable pub merged_flags :
    Option GgufHeaderMetadata
    → (head_dim hidden layers heads : Option ℤ) → List (String × FlagValue)
    → List (String × FlagValue)
unfolding key_dim is_uneven
merged_flags none head_dim hidden layers heads flags = flags
merged_flags (some header) head_dim hidden layers heads flags =
    let value_dim = attention_key "attention.value_length" header in
    let marked =
      if is_uneven value_dim (key_dim head_dim hidden heads)
      then set_flag "unsupported_kv_head_dimensions" (FlagValue.boolean true) flags
      else flags in
    if is_some layers && is_some heads && is_some hidden then without_composites marked else marked

abbrev pub config_of : Option BaseConfig → (ModelConfig → Option ℕ) → Option ℕ
config_of base f = from base (λ b. f b.config)

-- The fields of a header, where there is one.
pub record HeaderFields : Type 0 where
  pub architecture : Option Text
  pub context_length : Option ℤ
  pub embedding_length : Option ℤ
  pub block_count : Option ℤ
  pub head_count : Option ℤ
  pub head_count_kv : Option ℤ
  pub key_length : Option ℤ

unfoldable pub header_fields : Option GgufHeaderMetadata → HeaderFields
header_fields header = record {
  architecture = from header (λ h. h.architecture);
  context_length = from header (λ h. h.context_length);
  embedding_length = from header (λ h. h.embedding_length);
  block_count = from header (λ h. h.block_count);
  head_count = from header (λ h. h.head_count);
  head_count_kv = from header (λ h. h.head_count_kv);
  key_length = from header (attention_key "attention.key_length");
}

-- The notes on the fields that both sides may state.
unfoldable pub notes : HeaderFields → Option BaseConfig → List Noted
unfolding note same_int
notes h base =
    note same_codes "model_type" h.architecture (from base (λ b. text_of b.config.model_type))
    ∷ note same_int "max_position_embeddings" h.context_length
        (from base (λ b. integer_of b.max_position_embeddings))
    ∷ note same_int "hidden_size" h.embedding_length
        (from base (λ b. integer_of b.config.hidden_size))
    ∷ note same_int "num_hidden_layers" h.block_count
        (from base (λ b. integer_of b.config.num_hidden_layers))
    ∷ note same_int "num_attention_heads" h.head_count
        (from base (λ b. integer_of b.config.num_attention_heads))
    ∷ note same_int "num_key_value_heads" h.head_count_kv
        (from base (λ b. integer_of b.config.num_key_value_heads))
    ∷ note same_int "head_dim" h.key_length (from base (λ b. integer_of b.config.head_dim))
    ∷ []

unfoldable pub sources_of : List Noted → List (String × ConfigurationSource)
sources_of [] = []
sources_of (noted ∷ rest) = elim noted.source [
  | none ↦ sources_of rest
  | some source ↦ (noted.field, source) ∷ sources_of rest
]

unfoldable pub conflicts_of : List Noted → List String
conflicts_of [] = []
conflicts_of (noted ∷ rest) =
    let later = conflicts_of rest in if noted.conflict then noted.field ∷ later else later

-- The note on a field that only the base configuration states.
abbrev base_note {ℓ} : {A : Type ℓ} → String → Option A → Noted
base_note field none = record { field = field; source = none; conflict = false }
base_note field (some a) = record {
  field = field;
  source = some ConfigurationSource.base_model_config;
  conflict = false;
}

unfoldable pub base_notes : Option BaseConfig → List Noted
base_notes base =
    base_note "sliding_window" (config_of base (λ c. c.sliding_window))
    ∷ base_note "use_sliding_window" (from base (λ b. b.config.use_sliding_window))
    ∷ base_note "torch_dtype" (from base (λ b. b.config.torch_dtype))
    ∷ base_note "intermediate_size" (config_of base (λ c. c.intermediate_size))
    ∷ base_note "tie_word_embeddings" (from base (λ b. b.config.tie_word_embeddings))
    ∷ base_note "vocab_size" (config_of base (λ c. c.vocab_size))
    ∷ []

abbrev flags_of : Option BaseConfig → List (String × FlagValue)
flags_of none = []
flags_of (some base) = base.config.raw_flags

unfoldable pub merged_config :
    Option GgufHeaderMetadata → HeaderFields → Option BaseConfig → MergedConfig
unfolding merged_flags
merged_config header h base =
    let hidden = or_else h.embedding_length (from base (λ b. integer_of b.config.hidden_size)) in
    let layers = or_else h.block_count (from base (λ b. integer_of b.config.num_hidden_layers)) in
    let heads = or_else h.head_count (from base (λ b. integer_of b.config.num_attention_heads)) in
    let head_dim = or_else h.key_length (from base (λ b. integer_of b.config.head_dim)) in
    record {
      model_type = nonempty (or_else h.architecture (from base (λ b. text_of b.config.model_type)));
      max_position_embeddings =
          or_else h.context_length (from base (λ b. integer_of b.max_position_embeddings));
      hidden_size = hidden;
      num_hidden_layers = layers;
      num_attention_heads = heads;
      num_key_value_heads =
          or_else h.head_count_kv (from base (λ b. integer_of b.config.num_key_value_heads));
      head_dim = head_dim;
      torch_dtype = from base (λ b. b.config.torch_dtype);
      intermediate_size = config_of base (λ c. c.intermediate_size);
      sliding_window = config_of base (λ c. c.sliding_window);
      use_sliding_window = from base (λ b. b.config.use_sliding_window);
      tie_word_embeddings = from base (λ b. b.config.tie_word_embeddings);
      vocab_size = config_of base (λ c. c.vocab_size);
      raw_flags = merged_flags header head_dim hidden layers heads (flags_of base);
    }

unfoldable pub enriched : Option GgufHeaderMetadata → Option BaseConfig → EnrichedConfig
unfolding header_fields notes base_notes sources_of conflicts_of merged_config
enriched header base =
    let h = header_fields header in
    record {
      config = merged_config header h base;
      sources = sources_of (notes h base ++ base_notes base);
      conflicts = conflicts_of (notes h base);
    }

unfoldable pub merge : Option GgufHeaderMetadata → Option BaseConfig → Option EnrichedConfig
unfolding enriched
merge none none = none
merge (some header) base = some (enriched (some header) base)
merge none (some base) = some (enriched none (some base))
