-- ===== src/Plans/Criteria.antt =====
-- The criteria that explain a plan's position: `ranking_criteria`,
-- src/jaull/recommendation/engine_v2.py. A criterion's value, a text for people, is left out.
use jaull.Base.{String, Bool, List, [], ◌∷◌, ◌++◌, map, lexicographic, if◌then◌else◌}
use jaull.Base.Int.{ℤ, pos, sub_ℕ}
use jaull.Ladder.{RecommendationPriority}
use jaull.Ladder.Gguf.{is_balanced}
use jaull.Plans.{RankedPlan, rejected, confidence_rank}
use jaull.Plans.Ranks.{
  level_rank, suitability_rank, model_size_rank, aggressive_quantization_rank, ladder_rank,
  requirement_confirmation_rank, quantization_quality_rank, memory_efficiency_rank,
  comfortable_memory_rank, runnability_rank, is_viable,
}
use jaull.Plans.Keys.{int_before}

pub record RankingCriterion : Type 0 where
  pub axis : String
  pub rank : ℤ

abbrev pub criterion : String → ℤ → RankingCriterion
criterion axis rank = record { axis = axis; rank = rank }

unfoldable pub leading_criteria : RankedPlan → Bool → List RankingCriterion
unfolding is_viable rejected requirement_confirmation_rank
leading_criteria item commercial_use_required =
    criterion "viability" (pos (if is_viable item then 0 else 1))
    ∷ criterion "plan_constraints" (pos (if rejected item.assessment then 1 else 0))
    ∷ (if commercial_use_required
        then criterion "requirement_confirmation" (pos (requirement_confirmation_rank item)) ∷ []
        else [])

unfoldable pub axis_criteria : RankedPlan → RecommendationPriority → List RankingCriterion
unfolding level_rank suitability_rank model_size_rank aggressive_quantization_rank runnability_rank
    quantization_quality_rank memory_efficiency_rank comfortable_memory_rank
axis_criteria item RecommendationPriority.quality =
    criterion "suitability" (pos (suitability_rank item RecommendationPriority.quality))
    ∷ criterion "capability" (pos (level_rank item.assessment.capability))
    ∷ criterion "aggressive_quantization" (pos (aggressive_quantization_rank item.plan))
    ∷ criterion "runnability" (pos (runnability_rank item.assessment))
    ∷ criterion "model_size" (model_size_rank item RecommendationPriority.quality)
    ∷ criterion "quantization_quality" (pos (quantization_quality_rank item.plan))
    ∷ criterion "execution_fitness" (pos (level_rank item.assessment.execution_fitness))
    ∷ []
axis_criteria item RecommendationPriority.speed =
    criterion "suitability" (pos (level_rank item.assessment.suitability))
    ∷ criterion "runnability" (pos (runnability_rank item.assessment))
    ∷ criterion "executability" (pos (level_rank item.assessment.executability))
    ∷ criterion "memory_footprint" (pos (memory_efficiency_rank item.assessment))
    ∷ []
axis_criteria item RecommendationPriority.memory =
    criterion "memory_footprint" (pos (memory_efficiency_rank item.assessment))
    ∷ criterion "execution_fitness" (pos (level_rank item.assessment.execution_fitness))
    ∷ criterion "executability" (pos (level_rank item.assessment.executability))
    ∷ []
axis_criteria item RecommendationPriority.balanced =
    criterion "suitability" (pos (suitability_rank item RecommendationPriority.balanced))
    ∷ criterion "aggressive_quantization" (pos (aggressive_quantization_rank item.plan))
    ∷ criterion "runnability" (pos (runnability_rank item.assessment))
    ∷ criterion "capability" (pos (level_rank item.assessment.capability))
    ∷ criterion "executability" (pos (level_rank item.assessment.executability))
    ∷ criterion "memory_headroom" (pos (comfortable_memory_rank item))
    ∷ []

unfoldable pub trailing_criteria : RankedPlan → RecommendationPriority → List RankingCriterion
unfolding confidence_rank model_size_rank ladder_rank
trailing_criteria item priority =
    criterion "plan_confidence" (pos (confidence_rank item.assessment.confidence))
    ∷ ((if is_balanced priority
          then criterion "model_size" (model_size_rank item priority) ∷ []
          else [])
        ++ criterion "quantization_preference" (pos (ladder_rank item.plan priority))
          ∷ criterion "popularity" (sub_ℕ 0 item.evaluated.downloads)
          ∷ [])

unfoldable pub ranking_criteria : RankedPlan → RecommendationPriority → Bool → List RankingCriterion
unfolding leading_criteria axis_criteria trailing_criteria
ranking_criteria item priority commercial_use_required =
    leading_criteria item commercial_use_required
    ++ axis_criteria item priority
    ++ trailing_criteria item priority

abbrev pub ranks : List RankingCriterion → List ℤ
ranks criteria = map (λ criterion. criterion.rank) criteria

-- `a` is explained to stand before `b`: the first criterion whose ranks differ says so.
unfoldable pub explained_before :
    RecommendationPriority → (commercial_use_required : Bool) → RankedPlan → RankedPlan → Bool
unfolding ranking_criteria int_before
explained_before priority commercial_use_required a b =
    lexicographic int_before (ranks (ranking_criteria a priority commercial_use_required))
      (ranks (ranking_criteria b priority commercial_use_required))
