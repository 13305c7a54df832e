-- ===== src/Tests/Sizes.antt =====
-- Runs of the memory estimate.
use jaull.Base.{
  ℕ, ◌+◌, ◌*◌, ◌≤◌, ◌≡◌, refl, or_number, true, false, none, some, arith, [], ◌∷◌, ◌⊎◌, Option, sym,
  ◌∙◌, max,
}
use jaull.Inference.{WeightPrecision}
use jaull.Estimation.{WeightEstimate, KvCacheEstimate, TransformerBlockWeightDecomposition}
use jaull.Model.Parameters.{
  ConfigParameterDecomposition, parameter_components, estimate_total_parameters_from_config,
}
use jaull.Model.Matrices.{
  Dimensions, IsShaped, Counts, estimate_config_parameter_decomposition-Counts,
}
use jaull.Memory.KvCache.{apply_sliding_window, sized_kv_cache}
use jaull.Memory.KvCache.Size.{capped_context, apply_sliding_window_capped}
use jaull.Memory.KvCache.Growth.{estimate_kv_cache_mono, estimate_kv_cache_int4}
use jaull.Memory.Weights.Shares.{attach, decompose_weights, add_transformer_block_decomposition}
use jaull.Memory.Weights.Conserve.{
  HasDecomposition, add_transformer_block_decomposition-HasDecomposition,
}
use jaull.Compatibility.{assess_auto}
use jaull.Compatibility.Status.{Truthful, assess_auto-Truthful}
use jaull.Service.{estimate_sizes, sizes, components_of, Sizes}
use jaull.Service.Safe.{Returns}
use jaull.Service.Total.{estimate_sizes-Returns}
use jaull.Fit.Placement.{Demand}
use jaull.Fit.Conserve.{IsExact}
use jaull.Compatibility.Components.{demand_of}
use jaull.Samples.{
  exact_floats, exact_floats-IsRounded, sample_config, sample_machine, sample_weights,
  sample_inference,
}

-- Four parts of ten of the RAM that has no graphics card beside it.
assess_auto-Truthful_example : Truthful (assess_auto 40 none 100) 40 none 100
assess_auto-Truthful_example = assess_auto-Truthful 40 none 100

apply_sliding_window_capped_example :
    (apply_sliding_window sample_config 16).context ≡ capped_context sample_config 16
apply_sliding_window_capped_example = apply_sliding_window_capped sample_config 16

abbrev sample_parameters : ConfigParameterDecomposition
sample_parameters = record {
  total_parameters = 1232;
  transformer_block_parameters = 1152;
  non_block_parameters = 80;
  embedding_parameters = 80;
  output_head_parameters = 0;
  total_transformer_blocks = 2;
}

estimate_config_parameter_decomposition-Counts_example :
    (d : Dimensions) × IsShaped sample_config d × Counts d sample_parameters
unfolding jaull.Model.Parameters.estimate_config_parameter_decomposition jaull.Base.lowers_to
estimate_config_parameter_decomposition-Counts_example =
    estimate_config_parameter_decomposition-Counts sample_config refl

abbrev sample_decomposition : TransformerBlockWeightDecomposition
sample_decomposition = decompose_weights 2000 2 (some sample_parameters)

add_transformer_block_decomposition-HasDecomposition_example :
    HasDecomposition (some 2000) (some 2) sample_decomposition
unfolding add_transformer_block_decomposition jaull.Base.lowers_to
add_transformer_block_decomposition-HasDecomposition_example =
    add_transformer_block_decomposition-HasDecomposition sample_weights (some sample_config) refl
      refl refl

-- The weights of the sample with their decomposition.
abbrev attached : WeightEstimate
attached = attach sample_weights sample_config (some 2000) (some 2)

-- The cache of the sample configuration, for one user, and its bytes.
abbrev kv_of : ℕ → KvCacheEstimate
kv_of context =
    sized_kv_cache sample_config (record { layers = 2; heads = 2; hidden = 8 }) 4
      (apply_sliding_window sample_config context) 1 2 1

abbrev kv_bytes : ℕ → ℕ
kv_bytes context = or_number (kv_of context).component.bytes 0

estimate_kv_cache_mono_example : kv_bytes 1 ≤ kv_bytes 8
unfolding jaull.Memory.KvCache.estimate_kv_cache jaull.Memory.KvCache.detect_exotic_architecture
    jaull.Memory.KvCache.dtype_bytes apply_sliding_window
estimate_kv_cache_mono_example =
    estimate_kv_cache_mono sample_config WeightPrecision.float16 {c = 1} {c' = 8} {b = 1} {b' = 1}
      {u = 1} {u' = 1} {e = kv_of 1} {e' = kv_of 8} (omega arith) (omega arith) (omega arith) refl
      refl refl refl

abbrev int4_bytes : Option ℕ
int4_bytes =
    (sized_kv_cache sample_config (record { layers = 2; heads = 2; hidden = 8 }) 4
      (apply_sliding_window sample_config 16) 1 0 1).component.bytes

estimate_kv_cache_int4_example : (int4_bytes ≡ none) ⊎ (int4_bytes ≡ some 0)
unfolding jaull.Memory.KvCache.estimate_kv_cache jaull.Memory.KvCache.detect_exotic_architecture
    jaull.Memory.KvCache.dtype_bytes
estimate_kv_cache_int4_example = estimate_kv_cache_int4 sample_config 16 1 1 refl

-- The demand of the sample request.
abbrev request_demand : Demand
request_demand = record {
  weights_bytes = 2000;
  kv_cache_bytes = 128;
  overhead_bytes = 536871112;
  device_reserve_bytes = 512;
  safety_margin_bytes = 53687376;
}

abbrev request : Sizes
request = sizes exact_floats false sample_inference attached (kv_of 16)

request_demand-IsExact : IsExact request_demand
request_demand-IsExact = record {
  kv_cache_exact = omega arith;
  overhead_exact = omega arith;
  safety_margin_exact = omega arith;
}

request_demand_lem :
    demand_of (components_of request) (some 2000) (some 128) (some 536871112) ≡ some request_demand
unfolding demand_of components_of sizes add_transformer_block_decomposition sized_kv_cache
    apply_sliding_window
request_demand_lem = refl

request_exact :
    (d : Demand)
    → demand_of (components_of request) (some 2000) (some 128) (some 536871112) ≡ some d
    → IsExact d
request_exact d e =
    let same : request_demand ≡ d = ground (arith, sym request_demand_lem ∙ e) in
    rw (← same) request_demand-IsExact

estimate_sizes-Returns_example : Returns (
    estimate_sizes exact_floats false sample_weights
      (some sample_config)
      sample_machine
      sample_inference)
unfolding jaull.Memory.KvCache.estimate_kv_cache jaull.Memory.KvCache.detect_exotic_architecture
    jaull.Memory.KvCache.dtype_bytes components_of sizes add_transformer_block_decomposition
    apply_sliding_window jaull.Base.lowers_to
estimate_sizes-Returns_example =
    estimate_sizes-Returns exact_floats exact_floats-IsRounded false sample_weights
      (some sample_config) sample_machine sample_inference refl refl refl request_exact
