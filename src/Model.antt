-- ===== src/Model.antt =====
-- What is known of a model: src/jaull/domain/model.py, as far as the estimator reads it.
pub mod Parameters
pub mod Matrices
pub mod Sums
use Prim.Native.String.{String}
use text.Mathlib.Text.{◌==◌ as same_text}
use jaull.Base.{ℕ, Bool, true, false, ◌&&◌, Option, none, some, List, [], ◌∷◌, if◌then◌else◌}

pub data RepositoryType : Type 0 where
  transformers gguf diffusers onnx adapter unknown : RepositoryType

-- A value of `raw_flags`: of a number only the sign is read, of any other object its truth.
pub data Sign : Type 0 where
  negative zero positive : Sign

pub data FlagValue : Type 0 where
  null : FlagValue
  boolean : Bool → FlagValue
  number : Sign → FlagValue
  other : (truthy : Bool) → FlagValue

pub record ModelConfig : Type 0 where
  pub model_type : Option String
  pub torch_dtype : Option String
  pub hidden_size : Option ℕ
  pub num_hidden_layers : Option ℕ
  pub num_attention_heads : Option ℕ
  pub num_key_value_heads : Option ℕ
  pub head_dim : Option ℕ
  pub intermediate_size : Option ℕ
  pub sliding_window : Option ℕ
  pub use_sliding_window : Option Bool
  pub tie_word_embeddings : Option Bool
  pub vocab_size : Option ℕ
  pub raw_flags : List (String × FlagValue)

pub record ModelFile : Type 0 where
  pub path : String
  pub size_bytes : Option ℕ

pub record GgufVariant : Type 0 where
  pub quantization : String
  pub files : List ModelFile
  pub total_bytes : Option ℕ
  pub is_complete : Bool
  pub is_split : Bool

-- `parameters_by_dtype` in insertion order.
pub record SafetensorsSummary : Type 0 where
  pub total_parameters : ℕ
  pub parameters_by_dtype : List (String × ℕ)

-- `flags.get(name)`
abbrev pub get_flag : String → List (String × FlagValue) → Option FlagValue
get_flag name [] = none
get_flag name ((key, value) ∷ flags) =
    if same_text key name then some value else get_flag name flags

-- `name in flags`
abbrev pub has_flag : String → List (String × FlagValue) → Bool
has_flag name flags = elim (get_flag name flags) [ none ↦ false | some _ ↦ true ]

-- `bool(value)`
abbrev pub truthy : FlagValue → Bool
truthy FlagValue.null = false
truthy (FlagValue.boolean b) = b
truthy (FlagValue.number Sign.zero) = false
truthy (FlagValue.number _) = true
truthy (FlagValue.other t) = t

-- `bool(flags.get(name))`
abbrev pub truthy_flag : String → List (String × FlagValue) → Bool
truthy_flag name flags = elim (get_flag name flags) [ none ↦ false | some value ↦ truthy value ]
