-- ===== src/Recommend.antt =====
-- Which candidates may be recommended, under which heading and in which order: src/jaull/recommendation/
-- actionability.py, tier.py and ranker.py. Of a candidate and its evidence, the fields that these
-- functions read; a score is the total rounded to six digits, in millionths.
pub mod Tier
pub mod Order
pub mod Gate
use jaull.Base.{ℕ, String, Bool, true, false, not, ◌&&◌, ◌||◌, Option, none, some, if◌then◌else◌}
use jaull.Estimation.{CompatibilityStatus, EstimationConfidence, CompatibilityAssessment, Ratio}

pub data ArtifactFormat : Type 0 where
  gguf awq gptq bitsandbytes compressed_tensors native unknown : ArtifactFormat

pub data ArtifactConfirmation : Type 0 where
  confirmed inferred theoretical unknown : ArtifactConfirmation

pub record ArtifactProfile : Type 0 where
  pub format : ArtifactFormat
  pub confirmation : ArtifactConfirmation

pub data RuntimeName : Type 0 where
  llama_cpp transformers vllm unknown : RuntimeName

pub data RuntimeExecutability : Type 0 where
  executable potentially_executable unsupported unknown : RuntimeExecutability

pub record RuntimeAssessment : Type 0 where
  pub runtime : RuntimeName
  pub executability : RuntimeExecutability

pub record EvaluatedCandidate : Type 0 where
  pub repo_id : String
  pub downloads : ℕ
  pub metadata_confidence : EstimationConfidence
  pub compatibility : Option CompatibilityAssessment
  pub artifact_profile : Option ArtifactProfile
  pub runtime_assessment : Option RuntimeAssessment

pub data ActionabilityLevel : Type 0 where
  actionable likely_actionable speculative blocked : ActionabilityLevel

unfoldable pub status_of : EvaluatedCandidate → CompatibilityStatus
status_of evaluated = elim evaluated.compatibility [
  | none ↦ CompatibilityStatus.unknown
  | some assessment ↦ assessment.status
]

-- `runtime.executability`, where a missing assessment counts as unknown: the source treats the two
-- alike from the second test on, and neither is unsupported.
unfoldable pub executability_of : Option RuntimeAssessment → RuntimeExecutability
executability_of none = RuntimeExecutability.unknown
executability_of (some runtime) = runtime.executability

abbrev pub is_theoretical : Option ArtifactProfile → Bool
is_theoretical none = false
is_theoretical (some artifact) = elim artifact.confirmation [
  | ArtifactConfirmation.theoretical ↦ true
  | _ ↦ false
]

abbrev pub is_confirmed : Option ArtifactProfile → Bool
is_confirmed none = false
is_confirmed (some artifact) = elim artifact.confirmation [
  | ArtifactConfirmation.confirmed ↦ true
  | ArtifactConfirmation.inferred ↦ true
  | _ ↦ false
]

abbrev pub is_spacious : CompatibilityStatus → Bool
is_spacious CompatibilityStatus.comfortable = true
is_spacious CompatibilityStatus.compatible = true
is_spacious _ = false

-- The last tests, for a status that is neither insufficient nor unknown.
unfoldable pub level_of : CompatibilityStatus → Bool → RuntimeExecutability → ActionabilityLevel
level_of status artifact_confirmed RuntimeExecutability.executable =
    if artifact_confirmed && is_spacious status
    then ActionabilityLevel.actionable
    else ActionabilityLevel.likely_actionable
level_of status artifact_confirmed RuntimeExecutability.potentially_executable =
    ActionabilityLevel.likely_actionable
level_of status artifact_confirmed _ = ActionabilityLevel.speculative

abbrev pub is_insufficient : CompatibilityStatus → Bool
is_insufficient CompatibilityStatus.insufficient = true
is_insufficient _ = false

abbrev pub is_unknown_status : CompatibilityStatus → Bool
is_unknown_status CompatibilityStatus.unknown = true
is_unknown_status _ = false

abbrev pub is_unsupported : RuntimeExecutability → Bool
is_unsupported RuntimeExecutability.unsupported = true
is_unsupported _ = false

abbrev pub is_unknown_runtime : RuntimeExecutability → Bool
is_unknown_runtime RuntimeExecutability.unknown = true
is_unknown_runtime _ = false

unfoldable pub grade :
    CompatibilityStatus → RuntimeExecutability → Option ArtifactProfile → ActionabilityLevel
unfolding level_of
grade status runtime artifact =
    if is_insufficient status
    then ActionabilityLevel.blocked
    else if is_unsupported runtime
    then ActionabilityLevel.blocked
    else if is_theoretical artifact
    then ActionabilityLevel.speculative
    else if is_unknown_runtime runtime
    then ActionabilityLevel.speculative
    else if is_unknown_status status
    then ActionabilityLevel.speculative
    else level_of status (is_confirmed artifact) runtime

unfoldable pub assess_actionability : EvaluatedCandidate → ActionabilityLevel
unfolding grade status_of executability_of
assess_actionability evaluated =
    grade (status_of evaluated) (executability_of evaluated.runtime_assessment)
      evaluated.artifact_profile

abbrev pub is_blocked : ActionabilityLevel → Bool
is_blocked ActionabilityLevel.blocked = true
is_blocked _ = false
