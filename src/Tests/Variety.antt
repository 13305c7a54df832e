-- ===== src/Tests/Variety.antt =====
-- Runs of the variety between tied plans.
use jaull.Base.{
  ◌≡◌, ◌≤◌, refl, String, true, false, none, some, List, [], ◌∷◌, map, length, All, Pairwise,
}
use jaull.Estimation.{CompatibilityStatus}
use jaull.Ladder.{RecommendationPriority}
use jaull.Plans.{AssessmentLevel, PlanCompatibilityStatus, RankedPlan, assess_plan, rejected}
use jaull.Plans.Ranks.{is_viable}
use jaull.Plans.Keys.{int_before, ranking_tie_key}
use jaull.Plans.Diverse.{DiversifiedRecommendation, diversify_ranked_plans}
use jaull.Plans.Varied.{OnRecommended}
use jaull.Plans.Ordered.{IsRanked, diversify_ranked_plans-Pairwise}
use jaull.Plans.Fresh.{AreDifferent}
use jaull.Plans.Distinct.{diversify_ranked_plans-Different}
use jaull.Tests.Plans.{candidate, plan_with, found_with, ranked_with}

-- A ranked plan of a named model.
abbrev of_model : String → String → CompatibilityStatus → AssessmentLevel → RankedPlan
of_model model repo_id status capability =
    let item = ranked_with repo_id status capability in
    record item { plan = record item.plan { confirmed_repo_id = some model } }

-- Two files of one model, tied with a file of another, and one that does not fit.
abbrev ranked : List RankedPlan
ranked =
    of_model "m" "a" CompatibilityStatus.insufficient AssessmentLevel.strong
    ∷ of_model "M" "b" CompatibilityStatus.comfortable AssessmentLevel.strong
    ∷ of_model "m" "c" CompatibilityStatus.comfortable AssessmentLevel.strong
    ∷ of_model "n" "d" CompatibilityStatus.comfortable AssessmentLevel.strong
    ∷ of_model "o" "e" CompatibilityStatus.comfortable AssessmentLevel.adequate
    ∷ []

abbrev shown : List String
shown =
    map (λ r. r.primary.evaluated.repo_id)
      (diversify_ranked_plans RecommendationPriority.balanced false ranked 3)

shown_models : shown ≡ "b" ∷ "d" ∷ "e" ∷ []
unfolding diversify_ranked_plans assess_plan
shown_models = refl

alternatives_kept :
    map
      (λ r. map (λ item. item.evaluated.repo_id) r.alternatives)
      (diversify_ranked_plans RecommendationPriority.balanced false ranked 1)
    ≡ ("a" ∷ "c" ∷ []) ∷ []
unfolding diversify_ranked_plans assess_plan
alternatives_kept = refl

nothing_shown : diversify_ranked_plans RecommendationPriority.speed true ranked 0 ≡ []
unfolding diversify_ranked_plans
nothing_shown = refl

abbrev in_order : List RankedPlan
in_order =
    of_model "m" "a" CompatibilityStatus.comfortable AssessmentLevel.strong
    ∷ of_model "n" "b" CompatibilityStatus.comfortable AssessmentLevel.strong
    ∷ of_model "o" "c" CompatibilityStatus.comfortable AssessmentLevel.adequate
    ∷ []

in_order-IsRanked : Pairwise (IsRanked RecommendationPriority.balanced false) in_order
unfolding ranking_tie_key assess_plan int_before
in_order-IsRanked = ((refl, (refl, tt)), ((refl, tt), (tt, tt)))

diversify_ranked_plans-Pairwise_example :
    Pairwise
      (OnRecommended (IsRanked RecommendationPriority.balanced false))
      (diversify_ranked_plans RecommendationPriority.balanced false in_order 2)
diversify_ranked_plans-Pairwise_example =
    diversify_ranked_plans-Pairwise RecommendationPriority.balanced false in_order 2
      in_order-IsRanked

abbrev shown_three : List DiversifiedRecommendation
shown_three = diversify_ranked_plans RecommendationPriority.balanced false ranked 3

diversify_ranked_plans-Different_example :
    Pairwise (OnRecommended AreDifferent) shown_three
    × All (λ r. rejected r.primary.assessment ≡ false) shown_three
    × (length shown_three ≤ 3)
diversify_ranked_plans-Different_example =
    diversify_ranked_plans-Different RecommendationPriority.balanced false ranked 3

-- Where it is not known whether the runtime is compatible, plans tie although the memory placement of
-- one is confirmed and that of the other is not.
abbrev undecided : CompatibilityStatus → RankedPlan
undecided status = record {
  evaluated = candidate "a";
  plan = plan_with status PlanCompatibilityStatus.unknown;
  assessment =
      assess_plan (candidate "a") (plan_with status PlanCompatibilityStatus.unknown) false
        (found_with AssessmentLevel.strong);
  use_case = none;
}

undecided_tied :
    ranking_tie_key (undecided CompatibilityStatus.comfortable) RecommendationPriority.quality false
    ≡ ranking_tie_key (undecided CompatibilityStatus.unknown) RecommendationPriority.quality false
unfolding ranking_tie_key assess_plan
undecided_tied = refl

undecided_apart :
    (is_viable (undecided CompatibilityStatus.comfortable) ≡ true)
    × (is_viable (undecided CompatibilityStatus.unknown) ≡ false)
unfolding is_viable assess_plan
undecided_apart = (refl, refl)
