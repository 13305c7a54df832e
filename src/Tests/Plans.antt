-- ===== src/Tests/Plans.antt =====
-- Runs of the order of plans.
use mathlib.Core.List.{Permᴰ}
use jaull.Base.{
  IsCut, ◌≡◌, refl, String, true, false, none, some, List, [], ◌∷◌, ◌++◌, keep, map, Pairwise,
  lexicographic, if◌then◌else◌,
}
use jaull.Base.Int.{pos}
use jaull.Estimation.{CompatibilityStatus, EstimationConfidence}
use jaull.Recommend.{EvaluatedCandidate, RuntimeName}
use jaull.Ladder.{RecommendationPriority}
use jaull.Samples.{sample_inference}
use jaull.Plans.{
  AssessmentLevel, ArtifactVariantFormat, ExecutionPlan, Findings, LicenseCategory,
  PlanCompatibilityStatus, RankedPlan, UseCase, rejected, assess_plan,
}
use jaull.Plans.Ranks.{is_viable, is_capability_first}
use jaull.Plans.Keys.{int_before, ranking_tie_key, order_plans}
use jaull.Plans.Criteria.{explained_before}
use jaull.Plans.Mirror.{explained_before-ranking_tie_key}
use jaull.Plans.Shown.{IsExplained, order_plans-Explained}
use jaull.Plans.Blocked.{assess_plan-rejected}
use jaull.Plans.Weak.{weak_plans_last, is_capable_plan}
use jaull.Plans.Weak.Merged.{MayFollow}
use jaull.Plans.Weak.Behind.{weak_plans_last-Pairwise, weak_plans_last-Permᴰ}
use jaull.Plans.Weak.Backwards.{weak_plans_last_backwards}
use jaull.Tests.Ladders.{estimate_with}

abbrev pub candidate : String → EvaluatedCandidate
candidate repo_id = record {
  repo_id = repo_id;
  downloads = 10;
  metadata_confidence = EstimationConfidence.high;
  compatibility = none;
  artifact_profile = none;
  runtime_assessment = none;
}

abbrev pub plan_with : CompatibilityStatus → PlanCompatibilityStatus → ExecutionPlan
plan_with status compatibility = record {
  confirmed_repo_id = none;
  family = some "llama";
  parameter_count = some 7000000000;
  artifact = record {
    repo_id = "files";
    format = ArtifactVariantFormat.gguf;
    quantization = some "Q4_K_M";
    precision = none;
    compatible_runtimes = RuntimeName.llama_cpp ∷ [];
  };
  runtime = RuntimeName.llama_cpp;
  selected_backend = some "cuda";
  memory_prediction = some (estimate_with status sample_inference);
  compatibility = compatibility;
}

abbrev pub found_with : AssessmentLevel → Findings
found_with capability = record {
  category = LicenseCategory.commercial_allowed;
  capability = capability;
  suitability = AssessmentLevel.strong;
  language_fit = AssessmentLevel.unknown;
  measured_memory_bytes = none;
  has_measured_speed = false;
}

abbrev pub ranked_with : String → CompatibilityStatus → AssessmentLevel → RankedPlan
ranked_with repo_id status capability = record {
  evaluated = candidate repo_id;
  plan = plan_with status PlanCompatibilityStatus.compatible;
  assessment =
      assess_plan (candidate repo_id) (plan_with status PlanCompatibilityStatus.compatible) false
        (found_with capability);
  use_case = some UseCase.coding;
}

-- Strong but of unknown memory, weak and comfortable, strong but offloading, and adequate.
abbrev unknown_fit : RankedPlan
unknown_fit = ranked_with "a" CompatibilityStatus.unknown AssessmentLevel.strong

abbrev weak : RankedPlan
weak = ranked_with "b" CompatibilityStatus.comfortable AssessmentLevel.weak

abbrev offloading : RankedPlan
offloading = ranked_with "c" CompatibilityStatus.offloading_required AssessmentLevel.strong

abbrev adequate : RankedPlan
adequate = ranked_with "d" CompatibilityStatus.comfortable AssessmentLevel.adequate

abbrev plans : List RankedPlan
plans = unknown_fit ∷ weak ∷ offloading ∷ adequate ∷ []

abbrev names : List RankedPlan → List String
names items = map (λ item. item.evaluated.repo_id) items

-- The plan whose memory fit is unknown is shown last, though it is capable.
order_balanced :
    names (order_plans RecommendationPriority.balanced false none plans)
    ≡ "d" ∷ "b" ∷ "c" ∷ "a" ∷ []
unfolding order_plans assess_plan
order_balanced = refl

-- The weak plan goes behind the adequate one, which is as viable.
weak_last_balanced :
    names (weak_plans_last plans RecommendationPriority.balanced) ≡ "a" ∷ "c" ∷ "d" ∷ "b" ∷ []
unfolding weak_plans_last assess_plan
weak_last_balanced = refl

-- A capable plan that needs offloading does not hold back a weak one that runs.
weak_stays_ahead :
    names (weak_plans_last (weak ∷ offloading ∷ []) RecommendationPriority.balanced)
    ≡ "b" ∷ "c" ∷ []
unfolding weak_plans_last assess_plan
weak_stays_ahead = refl

weak_last_speed : weak_plans_last plans RecommendationPriority.speed ≡ plans
unfolding weak_plans_last
weak_last_speed = refl

quality_first : is_capability_first RecommendationPriority.quality ≡ true
unfolding is_capability_first
quality_first = refl

weak_plans_last-Pairwise_example :
    Pairwise MayFollow (weak_plans_last plans RecommendationPriority.quality)
weak_plans_last-Pairwise_example =
    weak_plans_last-Pairwise plans RecommendationPriority.quality quality_first

weak_plans_last-Permᴰ_example :
    Permᴰ plans (weak_plans_last plans RecommendationPriority.balanced)
    × (keep is_capable_plan (weak_plans_last plans RecommendationPriority.balanced)
        ≡ keep is_capable_plan plans)
weak_plans_last-Permᴰ_example = weak_plans_last-Permᴰ plans RecommendationPriority.balanced

weak_is_weak : is_capable_plan weak ≡ false
unfolding assess_plan
weak_is_weak = refl

weak_plans_last_backwards_example :
    (us : List RankedPlan) × (vs : List RankedPlan) × (more : List RankedPlan) × (weak_plans_last
        plans RecommendationPriority.balanced
      ≡ us ++ weak ∷ vs)
    × (keep is_capable_plan us ≡ keep is_capable_plan (unknown_fit ∷ []) ++ more)
weak_plans_last_backwards_example =
    weak_plans_last_backwards (unknown_fit ∷ []) weak (offloading ∷ adequate ∷ [])
      RecommendationPriority.balanced weak_is_weak

abbrev shown : List RankedPlan
shown = order_plans RecommendationPriority.memory true (some 2) plans

order_plans-Explained_example :
    (cut : List RankedPlan) × Pairwise
      (IsExplained RecommendationPriority.memory true)
      (shown ++ cut)
    × Permᴰ plans (shown ++ cut)
    × IsCut (some 2) shown cut
order_plans-Explained_example =
    order_plans-Explained RecommendationPriority.memory true (some 2) plans

explained_before-ranking_tie_key_example :
    explained_before RecommendationPriority.quality false weak adequate
    ≡ lexicographic int_before
        (pos (if is_viable weak then 0 else 1)
          ∷ ranking_tie_key weak RecommendationPriority.quality false)
        (pos (if is_viable adequate then 0 else 1)
          ∷ ranking_tie_key adequate RecommendationPriority.quality false)
explained_before-ranking_tie_key_example =
    explained_before-ranking_tie_key weak adequate RecommendationPriority.quality false

abbrev misfit : ExecutionPlan
misfit = plan_with CompatibilityStatus.comfortable PlanCompatibilityStatus.not_compatible

misfit_blocked :
    (assess_plan (candidate "e") misfit false (found_with AssessmentLevel.strong)).execution_fitness
    ≡ AssessmentLevel.blocked
unfolding assess_plan
misfit_blocked = refl

assess_plan-rejected_example :
    rejected (assess_plan (candidate "e") misfit false (found_with AssessmentLevel.strong)) ≡ true
assess_plan-rejected_example =
    assess_plan-rejected (candidate "e") misfit false (found_with AssessmentLevel.strong)
      misfit_blocked
