-- ===== src/Recommend/Tier.antt =====
-- The heading of a recommendation: src/jaull/recommendation/tier.py.
use jaull.Base.{◌≡◌, Bool, true, false, Option, ltb, if◌then◌else◌, arith, ◌↔◌, ◌⊎◌, inl, inr, refl}
use jaull.Estimation.{CompatibilityStatus, EstimationConfidence, Ratio}
use jaull.Recommend.{
  ActionabilityLevel, ArtifactProfile, RuntimeExecutability, is_spacious, is_confirmed, grade,
  level_of, EvaluatedCandidate, assess_actionability, status_of, executability_of,
}

pub data RecommendationTier : Type 0 where
  best_match recommended closest_option best_effort : RecommendationTier

-- The status tests of `choose_tier`.
status_tier : CompatibilityStatus → RecommendationTier
status_tier CompatibilityStatus.comfortable = RecommendationTier.best_match
status_tier CompatibilityStatus.compatible = RecommendationTier.best_match
status_tier CompatibilityStatus.tight = RecommendationTier.recommended
status_tier _ = RecommendationTier.closest_option

-- The tests after them, which can only lower a best match.
confirmed_tier : EstimationConfidence → ActionabilityLevel → RecommendationTier
confirmed_tier EstimationConfidence.low actionability = RecommendationTier.recommended
confirmed_tier EstimationConfidence.medium actionability = RecommendationTier.recommended
confirmed_tier _ ActionabilityLevel.likely_actionable = RecommendationTier.recommended
confirmed_tier _ _ = RecommendationTier.best_match

lowered : RecommendationTier → RecommendationTier → RecommendationTier
lowered RecommendationTier.best_match tier = tier
lowered by_status tier = by_status

abbrev is_speculative : ActionabilityLevel → Bool
is_speculative ActionabilityLevel.speculative = true
is_speculative _ = false

abbrev is_unknown_confidence : EstimationConfidence → Bool
is_unknown_confidence EstimationConfidence.unknown = true
is_unknown_confidence _ = false

-- `hard_penalty` is a ratio, compared with one.
unfoldable pub choose_tier :
    CompatibilityStatus → EstimationConfidence → Ratio → ActionabilityLevel → RecommendationTier
unfolding status_tier confirmed_tier lowered
choose_tier status confidence hard_penalty actionability =
    if ltb hard_penalty.need hard_penalty.capacity
    then RecommendationTier.best_effort
    else if is_unknown_confidence confidence
    then RecommendationTier.best_effort
    else if is_speculative actionability
    then RecommendationTier.best_effort
    else lowered (status_tier status) (confirmed_tier confidence actionability)

-- What a best match stands on. An unsupported runtime blocks a candidate, and no test of the tiers
-- asks for that.
pub record IsBest (status : CompatibilityStatus) (confidence : EstimationConfidence)
    (penalty : Ratio) (runtime : RuntimeExecutability) (artifact : Option ArtifactProfile)
    : Type 0 where
  pub spacious : is_spacious status ≡ true
  pub high : confidence ≡ EstimationConfidence.high
  pub unpenalised : ltb penalty.need penalty.capacity ≡ false
  pub runs :
      (runtime ≡ RuntimeExecutability.executable) × (is_confirmed artifact ≡ true)
      ⊎ (runtime ≡ RuntimeExecutability.unsupported)

grade_runs :
    (status : CompatibilityStatus) (confidence : EstimationConfidence) (penalty : Ratio)
    (runtime : RuntimeExecutability) (artifact : Option ArtifactProfile)
    → choose_tier status confidence penalty (grade status runtime artifact)
      ≡ RecommendationTier.best_match
    → (runtime ≡ RuntimeExecutability.executable) × (is_confirmed artifact ≡ true)
      ⊎ (runtime ≡ RuntimeExecutability.unsupported)
unfolding choose_tier grade level_of status_tier confirmed_tier lowered
grade_runs status confidence penalty RuntimeExecutability.executable artifact e =
    inl (refl, ground arith)
grade_runs status confidence penalty RuntimeExecutability.unsupported artifact e = inr refl
grade_runs status confidence penalty RuntimeExecutability.potentially_executable artifact e =
    absurd (ground arith)
grade_runs status confidence penalty RuntimeExecutability.unknown artifact e = absurd (ground arith)

grade_tier :
    (status : CompatibilityStatus) (confidence : EstimationConfidence) (penalty : Ratio)
    (runtime : RuntimeExecutability) (artifact : Option ArtifactProfile)
    → choose_tier status confidence penalty (grade status runtime artifact)
      ≡ RecommendationTier.best_match
    → IsBest status confidence penalty runtime artifact
unfolding choose_tier grade level_of status_tier confirmed_tier lowered
grade_tier status confidence penalty runtime artifact e = record {
  spacious = ground arith;
  high = ground arith;
  unpenalised = ground arith;
  runs = grade_runs status confidence penalty runtime artifact e;
}

tier_grade :
    (status : CompatibilityStatus) (confidence : EstimationConfidence) (penalty : Ratio)
    (runtime : RuntimeExecutability) (artifact : Option ArtifactProfile)
    → IsBest status confidence penalty runtime artifact
    → choose_tier status confidence penalty (grade status runtime artifact)
      ≡ RecommendationTier.best_match
unfolding choose_tier grade level_of status_tier confirmed_tier lowered
tier_grade status confidence penalty runtime artifact best = elim best.runs [
  | inl (executable, confirmed) ↦
      rw (best.high, best.unpenalised, executable) (ground (arith, best.spacious, confirmed))
  | inr unsupported ↦ rw (best.high, best.unpenalised, unsupported) (ground (arith, best.spacious))
]

-- The best match is the heading of exactly the candidates that fit comfortably or compatibly, with
-- high confidence and no hard penalty, and have a confirmed or inferred artifact and an executable
-- runtime, or an unsupported runtime: such a candidate is blocked, and is not headed lower for it.
pub choose_tier-IsBest :
    (candidate : EvaluatedCandidate) (confidence : EstimationConfidence) (penalty : Ratio)
    → (choose_tier (status_of candidate) confidence penalty (assess_actionability candidate)
        ≡ RecommendationTier.best_match)
      ↔ IsBest
          (status_of candidate)
          confidence
          penalty
          (executability_of candidate.runtime_assessment)
          candidate.artifact_profile
unfolding assess_actionability
choose_tier-IsBest candidate confidence penalty = (
  grade_tier (status_of candidate) confidence penalty _ candidate.artifact_profile,
  tier_grade (status_of candidate) confidence penalty _ candidate.artifact_profile,
)
