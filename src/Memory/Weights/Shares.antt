-- ===== src/Memory/Weights/Shares.antt =====
-- The split of the weights between transformer blocks and the rest:
-- `add_transformer_block_decomposition` of src/jaull/estimator/weights.py.
use jaull.Base.{
  ℕ, ◌+◌, ◌-◌, ◌*◌, ◌/◌, Option, none, some, Bool, false, not, ◌&&◌, ltb, ◌==◌, if◌then◌else◌,
}
use jaull.Estimation.{
  WeightEstimate, TransformerBlockWeightDecomposition, TransformerBlockWeightDecompositionMethod,
}
use jaull.Model.{ModelConfig}
use jaull.Model.Parameters.{
  ConfigParameterDecomposition, estimate_config_parameter_decomposition, divides_by_zero,
}

-- The share of `part` in `whole`, rounded down.
unfoldable pub floor_share : ℕ → ℕ → ℕ → ℕ
floor_share bytes part whole = bytes * part / whole

-- `(bytes + blocks - 1) // blocks`
unfoldable pub bytes_per_block : ℕ → ℕ → ℕ
bytes_per_block bytes blocks = (bytes + blocks - 1) / blocks

unfoldable pub decompose_weights :
    ℕ → ℕ → Option ConfigParameterDecomposition → TransformerBlockWeightDecomposition
unfolding floor_share bytes_per_block
decompose_weights total blocks none = record {
  total_weight_bytes = total;
  estimated_transformer_block_weight_bytes = total;
  estimated_non_block_weight_bytes = 0;
  estimated_embedding_weight_bytes = none;
  estimated_output_head_weight_bytes = none;
  estimated_bytes_per_transformer_block = bytes_per_block total blocks;
  total_transformer_blocks = blocks;
  method = TransformerBlockWeightDecompositionMethod.uniform_weight_fallback;
}
decompose_weights total blocks (some parameters) =
    let block =
      floor_share total parameters.transformer_block_parameters parameters.total_parameters in
    let rest = total - block in
    let embedding =
      if ltb 0 parameters.non_block_parameters
      then floor_share rest parameters.embedding_parameters parameters.non_block_parameters
      else 0 in
    record {
      total_weight_bytes = total;
      estimated_transformer_block_weight_bytes = block;
      estimated_non_block_weight_bytes = rest;
      estimated_embedding_weight_bytes = some embedding;
      estimated_output_head_weight_bytes =
          some (if ltb 0 parameters.non_block_parameters then rest - embedding else 0);
      estimated_bytes_per_transformer_block = bytes_per_block block blocks;
      total_transformer_blocks = blocks;
      method = TransformerBlockWeightDecompositionMethod.config_parameter_decomposition;
    }

-- The attachment, once the bytes and the block count are known.
unfoldable pub attach : WeightEstimate → ModelConfig → Option ℕ → Option ℕ → WeightEstimate
unfolding decompose_weights estimate_config_parameter_decomposition
attach estimate config (some total) (some blocks) = if blocks == 0 then estimate else record {
  component = estimate.component;
  num_parameters = estimate.num_parameters;
  bits_per_parameter = estimate.bits_per_parameter;
  precision = estimate.precision;
  gguf_variant = estimate.gguf_variant;
  transformer_block_decomposition =
      some (decompose_weights total blocks (estimate_config_parameter_decomposition (some config)));
}
attach estimate config _ _ = estimate

-- The parameters are asked for, and dividing by zero heads raises.
unfoldable pub attach_raises : ModelConfig → Option ℕ → Option ℕ → Bool
unfolding divides_by_zero
attach_raises config (some total) (some blocks) = not (blocks == 0) && divides_by_zero config
attach_raises config _ _ = false

-- None is the ZeroDivisionError of a configuration with zero attention heads.
unfoldable pub add_transformer_block_decomposition :
    WeightEstimate → Option ModelConfig → Option WeightEstimate
unfolding attach attach_raises
add_transformer_block_decomposition estimate none = some estimate
add_transformer_block_decomposition estimate (some config) =
    if attach_raises config estimate.component.bytes config.num_hidden_layers
    then none
    else some (attach estimate config estimate.component.bytes config.num_hidden_layers)
