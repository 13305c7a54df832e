-- ===== src/Memory/Weights.antt =====
-- The weights: src/jaull/estimator/weights.py.
pub mod Shares
pub mod Conserve
use text.Mathlib.Text.{◌==◌ as same_text}
use jaull.Base.{
  ℕ, ◌+◌, ◌-◌, ◌*◌, ◌/◌, String, Bool, true, false, not, ◌&&◌, ◌||◌, Option, none, some, List, [],
  ◌∷◌, or_else, or_default, or_number, is_some, is_falsy, lowers_to, codes, file_name,
  contains_codes, ends_with, ltb, ◌==◌, if◌then◌else◌,
}
use jaull.Inference.{WeightPrecision, same_precision}
use jaull.Estimation.{
  EstimateSource, EstimationConfidence, MemoryComponent, WeightEstimate,
  TransformerBlockWeightDecomposition, TransformerBlockWeightDecompositionMethod,
}
use jaull.Model.{ModelConfig, ModelFile, GgufVariant, SafetensorsSummary}
use jaull.Model.Parameters.{ConfigParameterDecomposition, estimate_config_parameter_decomposition}
use jaull.Memory.Policies.{half_bytes_per_parameter}

-- `mapping.get(name.lower())`
precision_named : List (String × WeightPrecision) → String → Option WeightPrecision
precision_named [] name = none
precision_named ((key, precision) ∷ mapping) name =
    if lowers_to key name then some precision else precision_named mapping name

abbrev torch_dtypes : List (String × WeightPrecision)
torch_dtypes =
    ("float32", WeightPrecision.float32)
    ∷ ("fp32", WeightPrecision.float32)
    ∷ ("float16", WeightPrecision.float16)
    ∷ ("fp16", WeightPrecision.float16)
    ∷ ("half", WeightPrecision.float16)
    ∷ ("bfloat16", WeightPrecision.bfloat16)
    ∷ ("bf16", WeightPrecision.bfloat16)
    ∷ ("int8", WeightPrecision.int8)
    ∷ ("int4", WeightPrecision.int4)
    ∷ []

unfoldable pub torch_dtype_to_precision : Option String → Option WeightPrecision
unfolding precision_named
torch_dtype_to_precision none = none
torch_dtype_to_precision (some name) = precision_named torch_dtypes name

abbrev safetensors_dtypes : List (String × WeightPrecision)
safetensors_dtypes =
    ("F32", WeightPrecision.float32)
    ∷ ("F16", WeightPrecision.float16)
    ∷ ("BF16", WeightPrecision.bfloat16)
    ∷ ("I8", WeightPrecision.int8)
    ∷ ("U8", WeightPrecision.int8)
    ∷ []

-- `_SAFETENSORS_DTYPE_TO_PRECISION.get(dtype)`
stored_as : List (String × WeightPrecision) → String → Option WeightPrecision
stored_as [] dtype = none
stored_as ((key, precision) ∷ mapping) dtype =
    if same_text key dtype then some precision else stored_as mapping dtype

-- `max(items, key=count)`, the first of several maxima, after `best`.
dominant_after : String × ℕ → List (String × ℕ) → String
dominant_after (name, count) [] = name
dominant_after (name, count) ((other, n) ∷ items) =
    dominant_after (if ltb count n then (other, n) else (name, count)) items

unfoldable pub dominant_precision : SafetensorsSummary → Option WeightPrecision
unfolding stored_as dominant_after
dominant_precision summary = elim summary.parameters_by_dtype [
  | [] ↦ none
  | first ∷ items ↦ stored_as safetensors_dtypes (dominant_after first items)
]

-- `_torch_dtype_to_precision(config.torch_dtype) if config else None`
unfoldable pub config_precision : Option ModelConfig → Option WeightPrecision
unfolding torch_dtype_to_precision
config_precision none = none
config_precision (some config) = torch_dtype_to_precision config.torch_dtype

weights_component : Option ℕ → EstimateSource → EstimationConfidence → MemoryComponent
weights_component bytes source confidence = record {
  name = "Weights";
  bytes = bytes;
  source = source;
  confidence = confidence;
}

unfoldable pub estimate_weights_from_gguf : GgufVariant → WeightEstimate
unfolding weights_component
estimate_weights_from_gguf variant = record {
  component =
      weights_component variant.total_bytes
        (if is_some variant.total_bytes then EstimateSource.exact else EstimateSource.unknown)
        (if is_some variant.total_bytes
          then EstimationConfidence.high
          else EstimationConfidence.unknown);
  num_parameters = none;
  bits_per_parameter = none;
  precision = none;
  gguf_variant = some variant.quantization;
  transformer_block_decomposition = none;
}

-- `math.ceil(count * bytes_per_parameter(precision))`: exact, the factor is a power of two.
unfoldable pub bytes_at : WeightPrecision → ℕ → ℕ
unfolding half_bytes_per_parameter
bytes_at precision count = (count * half_bytes_per_parameter precision + 1) / 2

abbrev bits_of : WeightPrecision → ℕ
bits_of precision = half_bytes_per_parameter precision * 4

unfoldable pub safetensors_precision :
    SafetensorsSummary → Option WeightPrecision → Option ModelConfig → WeightPrecision
unfolding dominant_precision config_precision
safetensors_precision summary requested config =
    or_default (or_else (or_else requested (dominant_precision summary)) (config_precision config))
      WeightPrecision.float16

unfoldable pub estimate_weights_from_safetensors :
    SafetensorsSummary → Option WeightPrecision → Option ModelConfig → WeightEstimate
unfolding weights_component bytes_at safetensors_precision
estimate_weights_from_safetensors summary requested config =
    let precision = safetensors_precision summary requested config in
    record {
      component =
          weights_component (some (bytes_at precision summary.total_parameters))
            EstimateSource.metadata EstimationConfidence.high;
      num_parameters = some summary.total_parameters;
      bits_per_parameter = some (bits_of precision);
      precision = some precision;
      gguf_variant = none;
      transformer_block_decomposition = none;
    }

is_weight_file : String → Bool
unfolding file_name ends_with contains_codes
is_weight_file path =
    let name = file_name path in
    ends_with (codes ".safetensors") name
    || (ends_with (codes ".bin") name && contains_codes (codes "pytorch_model") name)

-- `_weight_file_bytes`; a file of unknown or zero size adds nothing.
unfoldable pub weight_file_bytes : List ModelFile → ℕ
unfolding is_weight_file
weight_file_bytes [] = 0
weight_file_bytes (file ∷ files) =
    (if is_weight_file file.path then or_number file.size_bytes 0 else 0) + weight_file_bytes files

unknown_weights : WeightEstimate
unfolding weights_component
unknown_weights = record {
  component = weights_component none EstimateSource.unknown EstimationConfidence.unknown;
  num_parameters = none;
  bits_per_parameter = none;
  precision = none;
  gguf_variant = none;
  transformer_block_decomposition = none;
}

-- `math.ceil(total * (bpp(wanted) / bpp(stored)))`: exact, the ratio is a power of two.
unfoldable pub scaled_bytes : WeightPrecision → WeightPrecision → ℕ → ℕ
unfolding half_bytes_per_parameter
scaled_bytes wanted stored total =
    (total * half_bytes_per_parameter wanted + (half_bytes_per_parameter stored - 1))
    / half_bytes_per_parameter stored

unfoldable pub estimate_weights_from_files :
    List ModelFile → Option WeightPrecision → Option ModelConfig → WeightEstimate
unfolding weights_component weight_file_bytes unknown_weights scaled_bytes config_precision
estimate_weights_from_files files requested config =
    let total = weight_file_bytes files in
    let stored = or_default (config_precision config) WeightPrecision.float16 in
    let wanted = or_default requested stored in
    if total == 0 then unknown_weights else record {
      component =
          weights_component
            (some
              (if same_precision wanted stored then total else scaled_bytes wanted stored total))
            EstimateSource.derived EstimationConfidence.medium;
      num_parameters = none;
      bits_per_parameter = some (bits_of wanted);
      precision = some wanted;
      gguf_variant = none;
      transformer_block_decomposition = none;
    }
