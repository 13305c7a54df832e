-- ===== src/Tests/Runtimes.antt =====
-- Runs of the grading of runtimes.
use jaull.Base.{◌≡◌, ◌≢◌, ◌↔◌, refl, false, none, some, []}
use jaull.Estimation.{CompatibilityStatus, CompatibilityAssessment, EstimationConfidence}
use jaull.Inference.{TargetDevice}
use jaull.Recommend.{
  EvaluatedCandidate, ArtifactProfile, ArtifactFormat, ArtifactConfirmation, RuntimeName,
  RuntimeExecutability, RuntimeAssessment, ActionabilityLevel, assess_actionability, status_of,
}
use jaull.Recommend.Tier.{RecommendationTier, choose_tier}
use jaull.Runtime.Executability.{RuntimeRecommendation, assess_runtime, estimated_insufficient}
use jaull.Runtime.Grades.{Runs, assess_runtime-Runs, choose_tier-assess_runtime}
use jaull.Samples.{sample_machine}

abbrev recommended : RuntimeName → RuntimeRecommendation
recommended name = record { runtime = name }

abbrev artifact : ArtifactFormat → ArtifactProfile
artifact format = record { format = format; confirmation = ArtifactConfirmation.confirmed }

abbrev comfortable : CompatibilityAssessment
comfortable = record {
  status = CompatibilityStatus.comfortable;
  confidence = EstimationConfidence.high;
  target_device = TargetDevice.auto;
  effective_device = TargetDevice.gpu;
  available_vram_bytes = none;
  available_ram_bytes = none;
  ratio = none;
  reasons = [];
  warnings = [];
}

abbrev graded : RuntimeAssessment
graded =
    assess_runtime (some (recommended RuntimeName.llama_cpp)) sample_machine
      (some (artifact ArtifactFormat.gguf)) (some comfortable)

abbrev graded_candidate : EvaluatedCandidate
graded_candidate = record {
  repo_id = "a";
  downloads = 10;
  metadata_confidence = EstimationConfidence.high;
  compatibility = some comfortable;
  artifact_profile = some (artifact ArtifactFormat.gguf);
  runtime_assessment = some graded;
}

llama_cpp_graded : graded.executability ≡ RuntimeExecutability.potentially_executable
unfolding assess_runtime
llama_cpp_graded = refl

graded_not_blocked : assess_actionability graded_candidate ≢ ActionabilityLevel.blocked
unfolding assess_actionability assess_runtime
graded_not_blocked e = cc

assess_runtime-Runs_example :
    (graded.executability ≡ RuntimeExecutability.potentially_executable) ↔ (
      (estimated_insufficient (some comfortable) ≡ false)
      × Runs sample_machine RuntimeName.llama_cpp (some (artifact ArtifactFormat.gguf)))
assess_runtime-Runs_example =
    assess_runtime-Runs (recommended RuntimeName.llama_cpp) sample_machine
      (some (artifact ArtifactFormat.gguf)) (some comfortable)

choose_tier-assess_runtime_example :
    choose_tier
      (status_of graded_candidate)
      EstimationConfidence.high
      (record { need = 1; capacity = 1 })
      (assess_actionability graded_candidate)
    ≢ RecommendationTier.best_match
choose_tier-assess_runtime_example =
    choose_tier-assess_runtime graded_candidate EstimationConfidence.high
      (record { need = 1; capacity = 1 }) (some (recommended RuntimeName.llama_cpp)) sample_machine
      (some (artifact ArtifactFormat.gguf)) (some comfortable) refl graded_not_blocked
