-- ===== src/Plans/Ranks.antt =====
-- The ranks that the order of plans compares: src/jaull/recommendation/engine_v2.py. Texts are compared
-- by their code points, quantizations in upper case.
use jaull.Base.{
  ℕ, suc, String, Bool, true, false, not, ◌&&◌, ◌||◌, Option, none, some, List, [], ◌∷◌, codes,
  same_codes, or_number, ◌==◌, ◌^◌, if◌then◌else◌,
}
use jaull.Base.Int.{ℤ, pos, sub_ℕ}
use jaull.Estimation.{CompatibilityStatus}
use jaull.Ladder.{RecommendationPriority}
use jaull.Ladder.Gguf.{quantization_ladder, rung_of, is_aggressive}
use jaull.Recommend.Order.{has_confirmed_memory_compatibility}
use jaull.Plans.{
  AssessmentLevel, UseCase, ArtifactVariantFormat, ExecutionPlan, PlanAssessment, RankedPlan,
  rejected,
}

-- `_LEVEL_RANK`
unfoldable pub level_rank : AssessmentLevel → ℕ
level_rank AssessmentLevel.strong = 0
level_rank AssessmentLevel.adequate = 1
level_rank AssessmentLevel.weak = 2
level_rank AssessmentLevel.unknown = 3
level_rank AssessmentLevel.blocked = 4

-- `priority in CAPABILITY_FIRST_PRIORITIES`
unfoldable pub is_capability_first : RecommendationPriority → Bool
is_capability_first RecommendationPriority.quality = true
is_capability_first RecommendationPriority.balanced = true
is_capability_first RecommendationPriority.speed = false
is_capability_first RecommendationPriority.memory = false

-- `level in {STRONG, ADEQUATE}`
abbrev pub is_capable : AssessmentLevel → Bool
is_capable AssessmentLevel.strong = true
is_capable AssessmentLevel.adequate = true
is_capable _ = false

abbrev is_weak : AssessmentLevel → Bool
is_weak AssessmentLevel.weak = true
is_weak _ = false

abbrev is_coding : Option UseCase → Bool
is_coding (some UseCase.coding) = true
is_coding _ = false

unfoldable pub suitability_rank : RankedPlan → RecommendationPriority → ℕ
unfolding level_rank is_capability_first
suitability_rank item priority =
    let level = item.assessment.suitability in
    if is_coding item.use_case
      && is_capability_first priority
      && is_capable level
      && not (is_weak item.assessment.language_fit)
    then level_rank AssessmentLevel.strong
    else level_rank level

unfoldable pub model_size_rank : RankedPlan → RecommendationPriority → ℤ
unfolding is_capability_first
model_size_rank item priority =
    if is_capability_first priority then sub_ℕ 0 (or_number item.plan.parameter_count 0) else pos 0

abbrev is_gguf_format : ArtifactVariantFormat → Bool
is_gguf_format ArtifactVariantFormat.gguf = true
is_gguf_format _ = false

-- `not quantization`
abbrev pub is_blank : Option String → Bool
is_blank none = true
is_blank (some text) = elim (codes text) [ [] ↦ true | _ ∷ _ ↦ false ]

-- `names.index(text)`, or the number of names where it is not among them.
unfoldable pub position_of : List ℕ → List String → ℕ
position_of text [] = 0
position_of text (name ∷ names) =
    if same_codes (codes name) text then 0 else suc (position_of text names)

-- `quantization.upper()`
abbrev upper_name : String → List ℕ
upper_name quantization = (rung_of quantization).name

unfoldable pub aggressive_quantization_rank : ExecutionPlan → ℕ
unfolding rung_of is_aggressive
aggressive_quantization_rank plan = elim plan.artifact.quantization [
  | none ↦ 0
  | some quantization ↦
      if not (is_gguf_format plan.artifact.format) || is_blank plan.artifact.quantization
      then 0
      else if is_aggressive (rung_of quantization)
      then 1
      else 0
]

unfoldable pub ladder_rank : ExecutionPlan → RecommendationPriority → ℕ
unfolding rung_of position_of quantization_ladder
ladder_rank plan priority = elim plan.artifact.quantization [
  | none ↦ 0
  | some quantization ↦
      if not (is_gguf_format plan.artifact.format) || is_blank plan.artifact.quantization
      then 0
      else position_of (upper_name quantization) (quantization_ladder priority)
]

unfoldable pub requirement_confirmation_rank : RankedPlan → ℕ
requirement_confirmation_rank item = elim item.assessment.license_fit [
  | AssessmentLevel.strong ↦ 0
  | AssessmentLevel.unknown ↦ 1
  | _ ↦ 2
]

abbrev quality_order : List String
quality_order =
    "F16" ∷ "Q8_0" ∷ "Q6_K" ∷ "Q5_K_M" ∷ "Q5_K_S" ∷ "Q4_K_M" ∷ "Q4_K_S" ∷ "Q3_K_M" ∷ "Q3_K_S"
    ∷ "Q2_K" ∷ []

unfoldable pub quantization_quality_rank : ExecutionPlan → ℕ
unfolding rung_of position_of
quantization_quality_rank plan = elim plan.artifact.quantization [
  | none ↦ 0
  | some quantization ↦
      if is_gguf_format plan.artifact.format
      then position_of (upper_name quantization) quality_order
      else 0
]

-- `measured or estimated`, where a measurement of zero bytes counts as none.
abbrev pub measured_or : Option ℕ → Option ℕ → Option ℕ
measured_or none estimated = estimated
measured_or (some bytes) estimated = if bytes == 0 then estimated else some bytes

unfoldable pub memory_efficiency_rank : PlanAssessment → ℕ
memory_efficiency_rank assessment =
    elim (measured_or assessment.measured_memory_bytes assessment.estimated_memory_bytes) [
      | none ↦ 10 ^ 18
      | some memory ↦ memory
    ]

abbrev has_tight_memory : RankedPlan → Bool
has_tight_memory item = elim item.plan.memory_prediction [
  | none ↦ false
  | some estimate ↦ elim estimate.assessment.status [ CompatibilityStatus.tight ↦ true | _ ↦ false ]
]

unfoldable pub comfort_of : AssessmentLevel → ℕ
comfort_of AssessmentLevel.strong = 0
comfort_of AssessmentLevel.adequate = 0
comfort_of AssessmentLevel.weak = 2
comfort_of AssessmentLevel.unknown = 3
comfort_of AssessmentLevel.blocked = 4

unfoldable pub comfortable_memory_rank : RankedPlan → ℕ
unfolding comfort_of
comfortable_memory_rank item =
    if has_tight_memory item then 1 else comfort_of item.assessment.feasibility

unfoldable pub runnability_rank : PlanAssessment → ℕ
runnability_rank assessment = elim assessment.execution_fitness [
  | AssessmentLevel.strong ↦ 0
  | AssessmentLevel.adequate ↦ 0
  | AssessmentLevel.weak ↦ 1
  | AssessmentLevel.unknown ↦ 2
  | AssessmentLevel.blocked ↦ 3
]

-- Whether the memory placement of a plan is confirmed.
unfoldable pub is_placed : RankedPlan → Bool
unfolding has_confirmed_memory_compatibility
is_placed item = elim item.plan.memory_prediction [
  | none ↦ false
  | some estimate ↦ has_confirmed_memory_compatibility estimate.assessment.status
]

-- The test of `_prioritize_confirmed_memory_fit`.
unfoldable pub is_viable : RankedPlan → Bool
unfolding rejected is_placed
is_viable item = not (rejected item.assessment) && is_placed item
