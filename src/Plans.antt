-- ===== src/Plans.antt =====
-- Execution plans and their assessments: src/jaull/domain/execution_plans.py, src/jaull/domain/
-- recommendation.py and the assessments of src/jaull/recommendation/engine_v2.py. Of a plan and of an
-- assessment, the fields that the ranking reads; `confirmed_repo_id`, `family` and
-- `parameter_count` are those of the model's identity, the first as `confirmed_model_repo_id` gives it.
-- Of a measured speed it matters whether there is one.
pub mod Ranks
pub mod Keys
pub mod Criteria
pub mod Mirror
pub mod Compared
pub mod Shown
pub mod Blocked
pub mod Weak
pub mod Diverse
pub mod Varied
pub mod Ordered
pub mod Fresh
pub mod Distinct
use jaull.Base.{
  ℕ, String, Bool, true, false, not, ◌&&◌, Option, none, some, List, [], ◌∷◌, ◌++◌, any, codes,
  same_codes, leb, if◌then◌else◌,
}
use jaull.Estimation.{CompatibilityStatus, EstimationConfidence}
use jaull.Service.{MemoryEstimate}
use jaull.Recommend.{EvaluatedCandidate, RuntimeName, is_insufficient}

pub data AssessmentLevel : Type 0 where
  strong adequate weak blocked unknown : AssessmentLevel

pub data UseCase : Type 0 where
  general_chat coding document_qa summarization_extraction reasoning batch_processing : UseCase
  writing_translation : UseCase

pub data ArtifactVariantFormat : Type 0 where
  transformers safetensors gguf unknown : ArtifactVariantFormat

pub data PlanCompatibilityStatus : Type 0 where
  compatible not_compatible unknown : PlanCompatibilityStatus

pub data LicenseCategory : Type 0 where
  commercial_allowed commercial_restricted unknown : LicenseCategory

-- The codes that `_hard_constraints` gives; a constraint's message is left out.
pub data HardConstraintCode : Type 0 where
  memory_insufficient license_incompatible artifact_runtime_incompatible : HardConstraintCode
  runtime_undetermined : HardConstraintCode

pub record ArtifactVariant : Type 0 where
  pub repo_id : String
  pub format : ArtifactVariantFormat
  pub quantization : Option String
  pub precision : Option String
  pub compatible_runtimes : List RuntimeName

pub record ExecutionPlan : Type 0 where
  pub confirmed_repo_id : Option String
  pub family : Option String
  pub parameter_count : Option ℕ
  pub artifact : ArtifactVariant
  pub runtime : RuntimeName
  pub selected_backend : Option String
  pub memory_prediction : Option MemoryEstimate
  pub compatibility : PlanCompatibilityStatus

pub record PlanAssessment : Type 0 where
  pub hard_constraints : List HardConstraintCode
  pub capability : AssessmentLevel
  pub suitability : AssessmentLevel
  pub execution_fitness : AssessmentLevel
  pub feasibility : AssessmentLevel
  pub executability : AssessmentLevel
  pub license_fit : AssessmentLevel
  pub language_fit : AssessmentLevel
  pub confidence : EstimationConfidence
  pub measured_memory_bytes : Option ℕ
  pub estimated_memory_bytes : Option ℕ
  pub has_measured_speed : Bool

pub record RankedPlan : Type 0 where
  pub evaluated : EvaluatedCandidate
  pub plan : ExecutionPlan
  pub assessment : PlanAssessment
  pub use_case : Option UseCase

-- `bool(constraints)`
abbrev pub has_any : List HardConstraintCode → Bool
has_any [] = false
has_any (_ ∷ _) = true

unfoldable pub rejected : PlanAssessment → Bool
rejected assessment = has_any assessment.hard_constraints

unfoldable pub runtime_value : RuntimeName → String
runtime_value RuntimeName.llama_cpp = "llama.cpp"
runtime_value RuntimeName.transformers = "transformers"
runtime_value RuntimeName.vllm = "vllm"
runtime_value RuntimeName.unknown = "unknown"

abbrev pub is_member : RuntimeName → List RuntimeName → Bool
is_member runtime runtimes =
    any (λ other. same_codes (codes (runtime_value other)) (codes (runtime_value runtime))) runtimes

unfoldable pub is_memory_insufficient : ExecutionPlan → Bool
is_memory_insufficient plan = elim plan.memory_prediction [
  | none ↦ false
  | some estimate ↦ is_insufficient estimate.assessment.status
]

abbrev pub is_unnamed : RuntimeName → Bool
is_unnamed RuntimeName.unknown = true
is_unnamed _ = false

abbrev pub is_not_compatible : PlanCompatibilityStatus → Bool
is_not_compatible PlanCompatibilityStatus.not_compatible = true
is_not_compatible _ = false

-- The constraint on the runtime, if any.
unfoldable pub runtime_constraints : ExecutionPlan → List HardConstraintCode
unfolding runtime_value is_memory_insufficient
runtime_constraints plan =
    if is_unnamed plan.runtime
    then (if is_memory_insufficient plan then [] else HardConstraintCode.runtime_undetermined ∷ [])
    else if not (is_member plan.runtime plan.artifact.compatible_runtimes)
    then HardConstraintCode.artifact_runtime_incompatible ∷ []
    else if is_not_compatible plan.compatibility
    then HardConstraintCode.artifact_runtime_incompatible ∷ []
    else []

abbrev is_restricted : LicenseCategory → Bool
is_restricted LicenseCategory.commercial_restricted = true
is_restricted _ = false

unfoldable pub hard_constraints :
    ExecutionPlan → LicenseCategory → (commercial_use_required : Bool) → List HardConstraintCode
unfolding runtime_constraints is_memory_insufficient
hard_constraints plan category commercial_use_required =
    runtime_constraints plan
    ++ (if is_memory_insufficient plan then HardConstraintCode.memory_insufficient ∷ [] else [])
    ++ (if commercial_use_required && is_restricted category
        then HardConstraintCode.license_incompatible ∷ []
        else [])

unfoldable pub feasibility_of : CompatibilityStatus → AssessmentLevel
feasibility_of CompatibilityStatus.comfortable = AssessmentLevel.strong
feasibility_of CompatibilityStatus.compatible = AssessmentLevel.adequate
feasibility_of CompatibilityStatus.tight = AssessmentLevel.adequate
feasibility_of CompatibilityStatus.offloading_required = AssessmentLevel.weak
feasibility_of CompatibilityStatus.insufficient = AssessmentLevel.blocked
feasibility_of CompatibilityStatus.unknown = AssessmentLevel.unknown

unfoldable pub feasibility : ExecutionPlan → AssessmentLevel
unfolding feasibility_of
feasibility plan = elim plan.memory_prediction [
  | none ↦ AssessmentLevel.unknown
  | some estimate ↦ feasibility_of estimate.assessment.status
]

unfoldable pub executability : ExecutionPlan → AssessmentLevel
executability plan = elim plan.compatibility [
  | PlanCompatibilityStatus.not_compatible ↦ AssessmentLevel.blocked
  | PlanCompatibilityStatus.compatible ↦ AssessmentLevel.strong
  | PlanCompatibilityStatus.unknown ↦ AssessmentLevel.unknown
]

-- The tests of `_execution_fitness` on the two levels.
unfoldable pub fitness_of : AssessmentLevel → AssessmentLevel → AssessmentLevel
fitness_of AssessmentLevel.blocked _ = AssessmentLevel.blocked
fitness_of _ AssessmentLevel.blocked = AssessmentLevel.blocked
fitness_of AssessmentLevel.unknown _ = AssessmentLevel.unknown
fitness_of _ feasible = feasible

unfoldable pub execution_fitness : ExecutionPlan → AssessmentLevel
unfolding fitness_of executability feasibility
execution_fitness plan = fitness_of (executability plan) (feasibility plan)

-- `_CONFIDENCE_RANK`
unfoldable pub confidence_rank : EstimationConfidence → ℕ
confidence_rank EstimationConfidence.high = 0
confidence_rank EstimationConfidence.medium = 1
confidence_rank EstimationConfidence.low = 2
confidence_rank EstimationConfidence.unknown = 3

unfoldable pub weaker_confidence :
    EstimationConfidence → EstimationConfidence → EstimationConfidence
unfolding confidence_rank
weaker_confidence left right =
    if leb (confidence_rank right) (confidence_rank left) then left else right

-- `_confidence`
unfoldable pub plan_confidence : EvaluatedCandidate → ExecutionPlan → EstimationConfidence
unfolding weaker_confidence
plan_confidence evaluated plan = elim plan.memory_prediction [
  | none ↦ evaluated.metadata_confidence
  | some estimate ↦ weaker_confidence evaluated.metadata_confidence estimate.assessment.confidence
]

unfoldable pub license_fit : LicenseCategory → (commercial_use_required : Bool) → AssessmentLevel
license_fit LicenseCategory.commercial_allowed _ = AssessmentLevel.strong
license_fit LicenseCategory.commercial_restricted true = AssessmentLevel.blocked
license_fit LicenseCategory.commercial_restricted false = AssessmentLevel.weak
license_fit LicenseCategory.unknown _ = AssessmentLevel.unknown

-- What `assess_plan` learns elsewhere: from the analysis of the model's metadata, from the licence's
-- category and from the records of measurements.
pub record Findings : Type 0 where
  pub category : LicenseCategory
  pub capability : AssessmentLevel
  pub suitability : AssessmentLevel
  pub language_fit : AssessmentLevel
  pub measured_memory_bytes : Option ℕ
  pub has_measured_speed : Bool

unfoldable pub assess_plan :
    EvaluatedCandidate
    → ExecutionPlan
    → (commercial_use_required : Bool) → Findings
    → PlanAssessment
unfolding hard_constraints execution_fitness feasibility executability license_fit plan_confidence
assess_plan evaluated plan commercial_use_required found = record {
  hard_constraints = hard_constraints plan found.category commercial_use_required;
  capability = found.capability;
  suitability = found.suitability;
  execution_fitness = execution_fitness plan;
  feasibility = feasibility plan;
  executability = executability plan;
  license_fit = license_fit found.category commercial_use_required;
  language_fit = found.language_fit;
  confidence = plan_confidence evaluated plan;
  measured_memory_bytes = found.measured_memory_bytes;
  estimated_memory_bytes = elim plan.memory_prediction [
    | none ↦ none
    | some estimate ↦ estimate.total_bytes
  ];
  has_measured_speed = found.has_measured_speed;
}
