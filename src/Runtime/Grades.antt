-- ===== src/Runtime/Grades.antt =====
-- What a graded runtime stands on, and what the grade means for the heading.
use jaull.Base.{
  ◌≡◌, ◌≢◌, ◌↔◌, Bool, true, false, Option, none, some, arith, refl, sym, ap, ◌∙◌, Bool-cases, inl,
  inr, if◌then◌else◌,
}
use jaull.Hardware.{HardwareProfile, ComputeBackend}
use jaull.Estimation.{CompatibilityAssessment, EstimationConfidence, Ratio}
use jaull.Recommend.{
  grade, ArtifactFormat, ArtifactProfile, RuntimeName, RuntimeExecutability, EvaluatedCandidate,
  ActionabilityLevel, assess_actionability, status_of, executability_of, is_theoretical,
}
use jaull.Recommend.Tier.{RecommendationTier, choose_tier, choose_tier-IsBest}
use jaull.Runtime.{has_backend, quantized_transformers_supported}
use jaull.Runtime.Executability.{
  RuntimeRecommendation, is_gguf, is_cuda_only, is_bitsandbytes, possible_if, assess_llama_cpp,
  assess_transformers, assess_vllm, assess_named, assess_runtime, estimated_insufficient,
  is_unknown_name,
}

-- The machine has what the runtime needs for the artifact.
pub data Runs (hardware : HardwareProfile) : RuntimeName → Option ArtifactProfile → Type 0 where
  gguf_file :
      (artifact : ArtifactProfile)
      → artifact.format ≡ ArtifactFormat.gguf
      → Runs hardware RuntimeName.llama_cpp (some artifact)
  served_on_cuda :
      (artifact : Option ArtifactProfile)
      → has_backend ComputeBackend.cuda hardware ≡ true
      → Runs hardware RuntimeName.vllm artifact
  kernels_on_cuda :
      (artifact : ArtifactProfile)
      → is_cuda_only artifact.format ≡ true
      → has_backend ComputeBackend.cuda hardware ≡ true
      → Runs hardware RuntimeName.transformers (some artifact)
  quantized_on_gpu :
      (artifact : ArtifactProfile)
      → is_cuda_only artifact.format ≡ false
      → quantized_transformers_supported hardware ≡ true
      → Runs hardware RuntimeName.transformers (some artifact)
  native_weights :
      (artifact : ArtifactProfile)
      → is_cuda_only artifact.format ≡ false
      → is_bitsandbytes artifact.format ≡ false
      → is_theoretical (some artifact) ≡ false
      → Runs hardware RuntimeName.transformers (some artifact)

possible_if_cases :
    (has : Bool) → possible_if has ≡ RuntimeExecutability.potentially_executable → has ≡ true
possible_if_cases true e = refl
possible_if_cases false e = cc

assess_transformers-Runs :
    (hardware : HardwareProfile) (artifact : ArtifactProfile)
    → assess_transformers
        (quantized_transformers_supported hardware)
        (some artifact)
        (has_backend ComputeBackend.cuda hardware)
      ≡ RuntimeExecutability.potentially_executable
    → Runs hardware RuntimeName.transformers (some artifact)
unfolding assess_transformers
assess_transformers-Runs hardware artifact e = elim (Bool-cases (is_cuda_only artifact.format)) [
  | inl packed ↦ Runs.kernels_on_cuda artifact packed (possible_if_cases _ (rw (packed) at e))
  | inr other ↦ elim (Bool-cases (is_bitsandbytes artifact.format)) [
    | inl packed ↦
        Runs.quantized_on_gpu artifact other (possible_if_cases _ (rw (other, packed) at e))
    | inr plain ↦ elim (Bool-cases (is_theoretical (some artifact))) [
      | inl theoretical ↦
          Runs.quantized_on_gpu artifact other
            (possible_if_cases _ (rw (other, plain, theoretical) at e))
      | inr native ↦ Runs.native_weights artifact other plain native
    ]
  ]
]

is_gguf_cases : (format : ArtifactFormat) → is_gguf format ≡ true → format ≡ ArtifactFormat.gguf
is_gguf_cases ArtifactFormat.gguf e = refl
is_gguf_cases ArtifactFormat.awq e = cc
is_gguf_cases ArtifactFormat.gptq e = cc
is_gguf_cases ArtifactFormat.bitsandbytes e = cc
is_gguf_cases ArtifactFormat.compressed_tensors e = cc
is_gguf_cases ArtifactFormat.native e = cc
is_gguf_cases ArtifactFormat.unknown e = cc

assess_named-Runs :
    (name : RuntimeName) (hardware : HardwareProfile) (artifact : Option ArtifactProfile)
    → assess_named name hardware artifact ≡ RuntimeExecutability.potentially_executable
    → Runs hardware name artifact
unfolding assess_named assess_llama_cpp assess_vllm assess_transformers
assess_named-Runs RuntimeName.llama_cpp hardware none e = cc
assess_named-Runs RuntimeName.llama_cpp hardware (some artifact) e =
    Runs.gguf_file artifact (is_gguf_cases artifact.format (ground arith))
assess_named-Runs RuntimeName.transformers hardware none e = cc
assess_named-Runs RuntimeName.transformers hardware (some artifact) e =
    assess_transformers-Runs hardware artifact e
assess_named-Runs RuntimeName.vllm hardware artifact e =
    Runs.served_on_cuda artifact (possible_if_cases _ e)
assess_named-Runs RuntimeName.unknown hardware artifact e = cc

Runs-assess_named :
    (name : RuntimeName) (hardware : HardwareProfile) (artifact : Option ArtifactProfile)
    → Runs hardware name artifact
    → assess_named name hardware artifact ≡ RuntimeExecutability.potentially_executable
unfolding assess_named assess_llama_cpp assess_vllm assess_transformers
Runs-assess_named _ hardware _ (Runs.gguf_file artifact e) = rw (e) refl
Runs-assess_named _ hardware _ (Runs.served_on_cuda artifact e) = rw (e) refl
Runs-assess_named _ hardware _ (Runs.kernels_on_cuda artifact e has) = rw (e, has) refl
Runs-assess_named _ hardware _ (Runs.quantized_on_gpu artifact e has) = ground arith
Runs-assess_named _ hardware _ (Runs.native_weights artifact e e' e'') = rw (e, e', e'') refl

known_name :
    (name : RuntimeName) {hardware : HardwareProfile} {artifact : Option ArtifactProfile}
    → Runs hardware name artifact
    → is_unknown_name name ≡ false
known_name _ (Runs.gguf_file artifact e) = refl
known_name _ (Runs.served_on_cuda artifact e) = refl
known_name _ (Runs.kernels_on_cuda artifact e has) = refl
known_name _ (Runs.quantized_on_gpu artifact e has) = refl
known_name _ (Runs.native_weights artifact e e' e'') = refl

not_possible : RuntimeExecutability.unsupported ≢ RuntimeExecutability.potentially_executable
not_possible e = cc

unknown_not_possible : RuntimeExecutability.unknown ≢ RuntimeExecutability.potentially_executable
unknown_not_possible e = cc

assess_guarded :
    (name : RuntimeName) (hardware : HardwareProfile) (artifact : Option ArtifactProfile)
    (insufficient : Bool)
    → (if is_unknown_name name
        then RuntimeExecutability.unknown
        else if insufficient
        then RuntimeExecutability.unsupported
        else assess_named name hardware artifact)
      ≡ RuntimeExecutability.potentially_executable
    → (insufficient ≡ false) × Runs hardware name artifact
assess_guarded name hardware artifact true e = elim (Bool-cases (is_unknown_name name)) [
  | inl none_named ↦ absurd (unknown_not_possible (rw (none_named) at e))
  | inr named ↦ absurd (not_possible (rw (named) at e))
]
assess_guarded name hardware artifact false e = elim (Bool-cases (is_unknown_name name)) [
  | inl none_named ↦ absurd (unknown_not_possible (rw (none_named) at e))
  | inr named ↦ (refl, assess_named-Runs name hardware artifact (rw (named) at e))
]

-- A recommended runtime is graded as potentially executable exactly if the memory is not known to be
-- insufficient and the machine has what the runtime needs for the artifact: a GGUF file for
-- llama.cpp, CUDA for vLLM, and for Transformers CUDA with AWQ or GPTQ weights, CUDA or HIP with
-- any other format, or weights of another format that are neither bitsandbytes nor theoretical.
pub assess_runtime-Runs :
    (recommendation : RuntimeRecommendation) (hardware : HardwareProfile)
    (artifact : Option ArtifactProfile) (estimate : Option CompatibilityAssessment)
    → ((assess_runtime (some recommendation) hardware artifact estimate).executability
        ≡ RuntimeExecutability.potentially_executable)
      ↔ ((estimated_insufficient estimate ≡ false) × Runs hardware recommendation.runtime artifact)
unfolding assess_runtime
assess_runtime-Runs recommendation hardware artifact estimate = (
  assess_guarded recommendation.runtime hardware artifact (estimated_insufficient estimate),
  λ (enough, runs).
      rw (known_name recommendation.runtime runs, enough)
        (Runs-assess_named recommendation.runtime hardware artifact runs),
)

possible_if_never : (has : Bool) → possible_if has ≢ RuntimeExecutability.executable
possible_if_never true e = cc
possible_if_never false e = cc

unknown_not_executable : RuntimeExecutability.unknown ≢ RuntimeExecutability.executable
unknown_not_executable e = cc

unsupported_not_executable : RuntimeExecutability.unsupported ≢ RuntimeExecutability.executable
unsupported_not_executable e = cc

assess_named_never :
    (name : RuntimeName) (hardware : HardwareProfile) (artifact : Option ArtifactProfile)
    → assess_named name hardware artifact ≢ RuntimeExecutability.executable
unfolding assess_named assess_llama_cpp assess_vllm assess_transformers
assess_named_never RuntimeName.llama_cpp hardware none e = cc
assess_named_never RuntimeName.llama_cpp hardware (some artifact) e = ground arith
assess_named_never RuntimeName.transformers hardware none e = cc
assess_named_never RuntimeName.transformers hardware (some artifact) e = ground arith
assess_named_never RuntimeName.vllm hardware artifact e = possible_if_never _ e
assess_named_never RuntimeName.unknown hardware artifact e = cc

assess_runtime_never :
    (recommendation : Option RuntimeRecommendation) (hardware : HardwareProfile)
    (artifact : Option ArtifactProfile) (estimate : Option CompatibilityAssessment)
    → (assess_runtime recommendation hardware artifact estimate).executability
      ≢ RuntimeExecutability.executable
unfolding assess_runtime
assess_runtime_never none hardware artifact estimate e = cc
assess_runtime_never (some recommendation) hardware artifact estimate e =
    elim (Bool-cases (is_unknown_name recommendation.runtime)) [
      | inl unnamed ↦ absurd (unknown_not_executable (rw (unnamed) at e))
      | inr named ↦ elim (Bool-cases (estimated_insufficient estimate)) [
        | inl small ↦ absurd (unsupported_not_executable (rw (named, small) at e))
        | inr enough ↦
            assess_named_never recommendation.runtime hardware artifact (rw (named, enough) at e)
      ]
    ]

unsupported_blocked :
    (candidate : EvaluatedCandidate)
    → executability_of candidate.runtime_assessment ≡ RuntimeExecutability.unsupported
    → assess_actionability candidate ≡ ActionabilityLevel.blocked
unfolding assess_actionability grade executability_of
unsupported_blocked candidate e = rw (e) (ground arith)

-- No candidate whose runtime was graded by assess_runtime, and which is not blocked, gets the
-- heading of the best match.
pub choose_tier-assess_runtime :
    (candidate : EvaluatedCandidate) (confidence : EstimationConfidence) (penalty : Ratio)
    (recommendation : Option RuntimeRecommendation) (hardware : HardwareProfile)
    (artifact : Option ArtifactProfile) (estimate : Option CompatibilityAssessment)
    → candidate.runtime_assessment ≡ some (assess_runtime recommendation hardware artifact estimate)
    → assess_actionability candidate ≢ ActionabilityLevel.blocked
    → choose_tier (status_of candidate) confidence penalty (assess_actionability candidate)
      ≢ RecommendationTier.best_match
unfolding executability_of
choose_tier-assess_runtime candidate confidence penalty recommendation hardware artifact estimate
      graded free e =
    let (best, _) = choose_tier-IsBest candidate confidence penalty in
    elim (best e).runs [
      | inl (executable, _) ↦
          assess_runtime_never recommendation hardware artifact estimate
            (sym (ap executability_of graded) ∙ executable)
      | inr unsupported ↦ free (unsupported_blocked candidate unsupported)
    ]
