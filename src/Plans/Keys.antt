-- ===== src/Plans/Keys.antt =====
-- The keys that plans are sorted by, and their order: `ranking_tie_key`, `_ranking_key` and the second
-- half of `rank_execution_plans`, src/jaull/recommendation/engine_v2.py.
use jaull.Base.{
  ℕ, String, Bool, true, false, not, Option, none, some, List, [], ◌∷◌, ◌++◌, map, keep, take,
  codes, ltb, lexicographic, sort_by, if◌then◌else◌,
}
use jaull.Base.Int.{ℤ, pos, negsuc, sub_ℕ}
use jaull.Ladder.{RecommendationPriority}
use jaull.Plans.{RankedPlan, rejected, runtime_value, confidence_rank}
use jaull.Plans.Ranks.{
  level_rank, suitability_rank, model_size_rank, aggressive_quantization_rank, ladder_rank,
  requirement_confirmation_rank, quantization_quality_rank, memory_efficiency_rank,
  comfortable_memory_rank, runnability_rank, is_viable,
}

-- `a < b`
unfoldable pub int_before : ℤ → ℤ → Bool
int_before (pos a) (pos b) = ltb a b
int_before (pos _) (negsuc _) = false
int_before (negsuc _) (pos _) = true
int_before (negsuc a) (negsuc b) = ltb b a

-- The part of the key that the priority decides.
unfoldable pub priority_axes : RankedPlan → RecommendationPriority → List ℤ
unfolding level_rank suitability_rank model_size_rank aggressive_quantization_rank runnability_rank
    quantization_quality_rank memory_efficiency_rank comfortable_memory_rank
priority_axes item RecommendationPriority.quality =
    pos (suitability_rank item RecommendationPriority.quality)
    ∷ pos (level_rank item.assessment.capability)
    ∷ pos (aggressive_quantization_rank item.plan)
    ∷ pos (runnability_rank item.assessment)
    ∷ model_size_rank item RecommendationPriority.quality
    ∷ pos (quantization_quality_rank item.plan)
    ∷ pos (level_rank item.assessment.execution_fitness)
    ∷ []
priority_axes item RecommendationPriority.speed =
    pos (level_rank item.assessment.suitability)
    ∷ pos (runnability_rank item.assessment)
    ∷ pos (level_rank item.assessment.executability)
    ∷ pos (memory_efficiency_rank item.assessment)
    ∷ []
priority_axes item RecommendationPriority.memory =
    pos (memory_efficiency_rank item.assessment)
    ∷ pos (level_rank item.assessment.execution_fitness)
    ∷ pos (level_rank item.assessment.executability)
    ∷ []
priority_axes item RecommendationPriority.balanced =
    pos (suitability_rank item RecommendationPriority.balanced)
    ∷ pos (aggressive_quantization_rank item.plan)
    ∷ pos (runnability_rank item.assessment)
    ∷ pos (level_rank item.assessment.capability)
    ∷ pos (level_rank item.assessment.executability)
    ∷ pos (comfortable_memory_rank item)
    ∷ []

unfoldable pub ranking_tie_key : RankedPlan → RecommendationPriority → Bool → List ℤ
unfolding rejected requirement_confirmation_rank priority_axes confidence_rank model_size_rank
    ladder_rank
ranking_tie_key item priority commercial_use_required =
    pos (if rejected item.assessment then 1 else 0)
    ∷ pos (if commercial_use_required then requirement_confirmation_rank item else 0)
    ∷ (priority_axes item priority
        ++ pos (confidence_rank item.assessment.confidence)
          ∷ model_size_rank item priority
          ∷ pos (ladder_rank item.plan priority)
          ∷ sub_ℕ 0 item.evaluated.downloads
          ∷ [])

-- `quantization or precision or ""`
abbrev text_or : Option String → List ℕ → List ℕ
text_or none other = other
text_or (some text) other = elim (codes text) [ [] ↦ other | c ∷ cs ↦ c ∷ cs ]

-- The texts that break the last ties.
unfoldable pub ranking_names : RankedPlan → List (List ℕ)
unfolding runtime_value
ranking_names item =
    codes item.evaluated.repo_id
    ∷ text_or item.plan.artifact.quantization (text_or item.plan.artifact.precision [])
    ∷ codes (runtime_value item.plan.runtime)
    ∷ []

-- One entry of a key: the entries at one place of two keys are of the same kind.
pub data KeyPart : Type 0 where
  number : ℤ → KeyPart
  text : List ℕ → KeyPart

unfoldable pub part_before : KeyPart → KeyPart → Bool
unfolding int_before
part_before (KeyPart.number a) (KeyPart.number b) = int_before a b
part_before (KeyPart.text a) (KeyPart.text b) = lexicographic ltb a b
part_before (KeyPart.number _) (KeyPart.text _) = true
part_before (KeyPart.text _) (KeyPart.number _) = false

unfoldable pub ranking_key : RankedPlan → RecommendationPriority → Bool → List KeyPart
unfolding ranking_tie_key ranking_names
ranking_key item priority commercial_use_required =
    map KeyPart.number (ranking_tie_key item priority commercial_use_required)
    ++ map KeyPart.text (ranking_names item)

-- The comparison that sorts the plans.
unfoldable pub sorts_before :
    RecommendationPriority → (commercial_use_required : Bool) → RankedPlan → RankedPlan → Bool
unfolding ranking_key part_before
sorts_before priority commercial_use_required a b =
    lexicographic part_before (ranking_key a priority commercial_use_required)
      (ranking_key b priority commercial_use_required)

unfoldable pub prioritize_confirmed_memory_fit : List RankedPlan → List RankedPlan
unfolding is_viable
prioritize_confirmed_memory_fit ordered =
    keep is_viable ordered ++ keep (λ item. not (is_viable item)) ordered

abbrev pub within_limit : Option ℕ → List RankedPlan → List RankedPlan
within_limit none ordered = ordered
within_limit (some limit) ordered = take limit ordered

-- `rank_execution_plans`, from the assessed plans on.
unfoldable pub order_plans :
    RecommendationPriority
    → (commercial_use_required : Bool) → (limit : Option ℕ) → List RankedPlan
    → List RankedPlan
unfolding sorts_before prioritize_confirmed_memory_fit
order_plans priority commercial_use_required limit ranked = within_limit limit (
    prioritize_confirmed_memory_fit
      (sort_by (sorts_before priority commercial_use_required) ranked))
