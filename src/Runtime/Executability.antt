-- ===== src/Runtime/Executability.antt =====
-- Whether a recommended runtime can load an artifact on this machine: src/jaull/runtime/
-- executability.py. Of a recommendation the runtime is read, of an estimate its assessment; the
-- reasons and warnings in words are left out, with the accelerator test that only words them.
use jaull.Base.{Bool, true, false, Option, none, some, if◌then◌else◌}
use jaull.Hardware.{HardwareProfile, ComputeBackend}
use jaull.Estimation.{CompatibilityAssessment}
use jaull.Recommend.{
  ArtifactFormat, ArtifactProfile, RuntimeName, RuntimeExecutability, RuntimeAssessment,
  is_theoretical, is_insufficient,
}
use jaull.Runtime.{has_backend, quantized_transformers_supported}

pub record RuntimeRecommendation : Type 0 where
  pub runtime : RuntimeName

abbrev pub is_gguf : ArtifactFormat → Bool
is_gguf ArtifactFormat.gguf = true
is_gguf _ = false

-- `_CUDA_ONLY_QUANT_FORMATS`
abbrev pub is_cuda_only : ArtifactFormat → Bool
is_cuda_only ArtifactFormat.awq = true
is_cuda_only ArtifactFormat.gptq = true
is_cuda_only _ = false

abbrev pub is_bitsandbytes : ArtifactFormat → Bool
is_bitsandbytes ArtifactFormat.bitsandbytes = true
is_bitsandbytes _ = false

abbrev pub possible_if : Bool → RuntimeExecutability
possible_if true = RuntimeExecutability.potentially_executable
possible_if false = RuntimeExecutability.unsupported

unfoldable pub assess_llama_cpp : Option ArtifactProfile → RuntimeExecutability
assess_llama_cpp none = RuntimeExecutability.unknown
assess_llama_cpp (some artifact) =
    if is_gguf artifact.format
    then RuntimeExecutability.potentially_executable
    else RuntimeExecutability.unknown

unfoldable pub assess_transformers : Bool → Option ArtifactProfile → Bool → RuntimeExecutability
assess_transformers has_gpu none has_cuda = RuntimeExecutability.unknown
assess_transformers has_gpu (some artifact) has_cuda =
    if is_cuda_only artifact.format
    then possible_if has_cuda
    else if is_bitsandbytes artifact.format
    then possible_if has_gpu
    else if is_theoretical (some artifact)
    then possible_if has_gpu
    else RuntimeExecutability.potentially_executable

unfoldable pub assess_vllm : Bool → RuntimeExecutability
assess_vllm has_gpu = possible_if has_gpu

-- The rules of a named runtime.
unfoldable pub assess_named :
    RuntimeName → HardwareProfile → Option ArtifactProfile → RuntimeExecutability
unfolding assess_llama_cpp assess_transformers assess_vllm
assess_named RuntimeName.llama_cpp hardware artifact = assess_llama_cpp artifact
assess_named RuntimeName.transformers hardware artifact =
    assess_transformers (quantized_transformers_supported hardware) artifact
      (has_backend ComputeBackend.cuda hardware)
assess_named RuntimeName.vllm hardware artifact =
    assess_vllm (has_backend ComputeBackend.cuda hardware)
assess_named RuntimeName.unknown hardware artifact = RuntimeExecutability.unknown

abbrev pub is_unknown_name : RuntimeName → Bool
is_unknown_name RuntimeName.unknown = true
is_unknown_name _ = false

abbrev pub estimated_insufficient : Option CompatibilityAssessment → Bool
estimated_insufficient none = false
estimated_insufficient (some assessment) = is_insufficient assessment.status

unfoldable pub assess_runtime :
    Option RuntimeRecommendation
    → HardwareProfile
    → Option ArtifactProfile
    → Option CompatibilityAssessment
    → RuntimeAssessment
unfolding assess_named
assess_runtime none hardware artifact estimate = record {
  runtime = RuntimeName.unknown;
  executability = RuntimeExecutability.unknown;
}
assess_runtime (some recommendation) hardware artifact estimate = record {
  runtime = recommendation.runtime;
  executability =
      if is_unknown_name recommendation.runtime
      then RuntimeExecutability.unknown
      else if estimated_insufficient estimate
      then RuntimeExecutability.unsupported
      else assess_named recommendation.runtime hardware artifact;
}
