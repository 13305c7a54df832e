-- ===== src/Plans/Diverse.antt =====
-- One plan for each model, and variety between tied models: src/jaull/recommendation/diversity.py.
-- Texts are lowered as ASCII; the factors 0.75 and 1.25 are exact, as they are in doubles for numbers
-- below 2 ^ 50.
use jaull.Base.{
  ℕ, zero, suc, ◌*◌, ◌/◌, String, Bool, true, false, not, ◌&&◌, Option, none, some, List, [], ◌∷◌,
  ◌++◌, map, any, keep, codes, lower_code, same_codes, lexicographic, ltb, leb, ◌==◌, if◌then◌else◌,
}
use jaull.Ladder.{RecommendationPriority}
use jaull.Plans.{ExecutionPlan, RankedPlan, rejected, runtime_value}
use jaull.Plans.Ranks.{measured_or, is_blank}
use jaull.Plans.Keys.{int_before, ranking_tie_key}

pub data RecommendationPosition : Type 0 where
  best_overall higher_quality faster lighter alternative : RecommendationPosition

pub record IdentityBucket : Type 0 where
  pub key : List ℕ
  pub primary : RankedPlan
  pub alternatives : List RankedPlan
  pub original_index : ℕ

pub record DiversifiedRecommendation : Type 0 where
  pub primary : RankedPlan
  pub alternatives : List RankedPlan
  pub position : RecommendationPosition

-- `canonical or plan.artifact.repo_id`, folded.
unfoldable pub identity_key : RankedPlan → List ℕ
identity_key item = elim item.plan.confirmed_repo_id [
  | none ↦ map lower_code (codes item.plan.artifact.repo_id)
  | some canonical ↦
      if is_blank item.plan.confirmed_repo_id
      then map lower_code (codes item.plan.artifact.repo_id)
      else map lower_code (codes canonical)
]

abbrev pub has_key : List ℕ → RankedPlan → Bool
has_key key item = same_codes (identity_key item) key

-- The first plan that is not rejected, and the others in their order.
unfoldable pub split_primary : List RankedPlan → Option (RankedPlan × List RankedPlan)
unfolding rejected
split_primary [] = none
split_primary (item ∷ items) =
    let rest = split_primary items in
    if not (rejected item.assessment)
    then some (item, items)
    else elim rest [ none ↦ none | some (primary, others) ↦ some (primary, item ∷ others) ]

-- The bucket that a plan opens: it is the first of its key that is not rejected.
unfoldable pub bucket_of : List RankedPlan → ℕ → RankedPlan → IdentityBucket
unfolding identity_key split_primary
bucket_of plans index item = record {
  key = identity_key item;
  primary = item;
  alternatives = elim (split_primary (keep (has_key (identity_key item)) plans)) [
    | none ↦ []
    | some (primary, others) ↦ others
  ];
  original_index = index;
}

-- Whether a plan opens a bucket.
unfoldable pub opens : List (List ℕ) → RankedPlan → Bool
unfolding rejected identity_key
opens seen item =
    not (rejected item.assessment) && not (any (λ key. same_codes key (identity_key item)) seen)

-- `_best_plan_per_identity`, with the keys that have a bucket and the index of the next plan.
unfoldable pub best_plans :
    List RankedPlan → List (List ℕ) → ℕ → List RankedPlan → List IdentityBucket
unfolding bucket_of identity_key opens
best_plans plans seen index [] = []
best_plans plans seen index (item ∷ items) =
    let is_new = opens seen item in
    let rest =
      best_plans plans (if is_new then identity_key item ∷ seen else seen) (suc index) items in
    if is_new then bucket_of plans index item ∷ rest else rest

unfoldable pub best_plan_per_identity : List RankedPlan → List IdentityBucket
unfolding best_plans
best_plan_per_identity plans = best_plans plans [] 0 plans

-- `None` for a family that is not known.
unfoldable pub family_key : ExecutionPlan → Option (List ℕ)
family_key plan = elim plan.family [
  | none ↦ none
  | some family ↦
      if same_codes (map lower_code (codes family)) (codes "unknown")
      then none
      else some (map lower_code (codes family))
]

-- The tiers from below 2 billion parameters on, numbered.
unfoldable pub parameter_tier : ExecutionPlan → Option ℕ
parameter_tier plan = elim plan.parameter_count [
  | none ↦ none
  | some n ↦ some (
      if ltb n 2000000000
      then 0
      else if ltb n 5000000000
      then 1
      else if ltb n 10000000000
      then 2
      else 3)
]

abbrev same_text : Option (List ℕ) → Option (List ℕ) → Bool
same_text none none = true
same_text (some a) (some b) = same_codes a b
same_text _ _ = false

abbrev same_number : Option ℕ → Option ℕ → Bool
same_number none none = true
same_number (some a) (some b) = a == b
same_number _ _ = false

abbrev coded : Option String → Option (List ℕ)
coded none = none
coded (some text) = some (codes text)

-- `quantization or precision`
unfoldable pub representation : ExecutionPlan → Option (List ℕ)
representation plan =
    if is_blank plan.artifact.quantization
    then coded plan.artifact.precision
    else coded plan.artifact.quantization

unfoldable pub same_runtime : ExecutionPlan → ExecutionPlan → Bool
unfolding runtime_value
same_runtime a b = same_codes (codes (runtime_value a.runtime)) (codes (runtime_value b.runtime))

-- Equal `_execution_profile`s.
unfoldable pub same_profile : ExecutionPlan → ExecutionPlan → Bool
unfolding same_runtime representation parameter_tier
same_profile a b =
    same_runtime a b
    && same_text (coded a.selected_backend) (coded b.selected_backend)
    && same_text (representation a) (representation b)
    && same_number (parameter_tier a) (parameter_tier b)

abbrev pub count_matching : (ExecutionPlan → Bool) → List ExecutionPlan → ℕ
count_matching p [] = 0
count_matching p (plan ∷ plans) =
    if p plan then suc (count_matching p plans) else count_matching p plans

abbrev is_known {ℓ} : {A : Type ℓ} → Option A → Bool
is_known none = false
is_known (some _) = true

unfoldable pub redundancy_key : ExecutionPlan → List ExecutionPlan → List ℕ
unfolding family_key parameter_tier same_runtime same_profile
redundancy_key plan selected =
    (if is_known (family_key plan)
      then count_matching (λ item. same_text (family_key item) (family_key plan)) selected
      else 0)
    ∷ (if is_known (parameter_tier plan)
        then count_matching (λ item. same_number (parameter_tier item) (parameter_tier plan))
            selected
        else 0)
    ∷ count_matching (λ item. same_runtime item plan) selected
    ∷ count_matching (λ item. same_profile item plan) selected
    ∷ []

-- `signature(a) == signature(b)`, as the order on integers tells it.
unfoldable pub is_tied : RecommendationPriority → Bool → RankedPlan → RankedPlan → Bool
unfolding ranking_tie_key int_before
is_tied priority commercial_use_required a b =
    not (
      lexicographic int_before (ranking_tie_key a priority commercial_use_required)
        (ranking_tie_key b priority commercial_use_required))
    && not (
        lexicographic int_before (ranking_tie_key b priority commercial_use_required)
          (ranking_tie_key a priority commercial_use_required))

-- What `min` compares.
unfoldable pub less_redundant : List ExecutionPlan → IdentityBucket → IdentityBucket → Bool
unfolding redundancy_key
less_redundant selected a b =
    lexicographic ltb (redundancy_key a.primary.plan selected ++ a.original_index ∷ [])
      (redundancy_key b.primary.plan selected ++ b.original_index ∷ [])

-- `min`: the first of the least.
unfoldable pub least : List ExecutionPlan → IdentityBucket → List IdentityBucket → IdentityBucket
unfolding less_redundant
least selected best [] = best
least selected best (bucket ∷ buckets) =
    least selected (if less_redundant selected bucket best then bucket else best) buckets

-- `remaining.remove(candidate)`; a bucket is known by the index of its primary plan.
unfoldable pub remove : ℕ → List IdentityBucket → List IdentityBucket
remove index [] = []
remove index (bucket ∷ buckets) =
    if bucket.original_index == index then buckets else bucket ∷ remove index buckets

module _ (priority : RecommendationPriority) (commercial_use_required : Bool) where
  unfoldable pub choose_next :
      List ExecutionPlan → IdentityBucket → List IdentityBucket → IdentityBucket
  unfolding is_tied least
  choose_next selected leader others = least selected leader (
      keep (λ bucket. is_tied priority commercial_use_required bucket.primary leader.primary)
        others)

  -- The loop: at most `room` more buckets.
  unfoldable pub choose_rest : ℕ → List ExecutionPlan → List IdentityBucket → List IdentityBucket
  unfolding choose_next remove
  choose_rest zero selected remaining = []
  choose_rest (suc room) selected [] = []
  choose_rest (suc room) selected (leader ∷ others) =
      let candidate = choose_next selected leader others in
      candidate
      ∷ choose_rest room (selected ++ candidate.primary.plan ∷ [])
          (remove candidate.original_index (leader ∷ others))

  -- The first bucket, and at most `room` more.
  unfoldable pub choose_from : ℕ → List IdentityBucket → List IdentityBucket
  unfolding choose_rest
  choose_from room [] = []
  choose_from room (first ∷ remaining) =
      first ∷ choose_rest room (first.primary.plan ∷ []) remaining

  -- The buckets that are selected.
  unfoldable pub diverse_buckets : List RankedPlan → ℕ → List IdentityBucket
  unfolding best_plan_per_identity choose_from
  diverse_buckets plans zero = []
  diverse_buckets plans (suc room) = choose_from room (best_plan_per_identity plans)

abbrev memory_of : RankedPlan → Option ℕ
memory_of item =
    measured_or item.assessment.measured_memory_bytes item.assessment.estimated_memory_bytes

abbrev both : (ℕ → ℕ → Bool) → Option ℕ → Option ℕ → Bool
both p (some a) (some b) = p a b
both p _ _ = false

unfoldable pub position_for : RankedPlan → RankedPlan → ℕ → RecommendationPosition
position_for ranked best index =
    if index == 0
    then RecommendationPosition.best_overall
    else if ranked.assessment.has_measured_speed
    then RecommendationPosition.faster
    else if both (λ current top. leb current (top * 3 / 4)) (memory_of ranked) (memory_of best)
    then RecommendationPosition.lighter
    else if both (λ current top. leb (top * 5 / 4) current) ranked.plan.parameter_count
        best.plan.parameter_count
    then RecommendationPosition.higher_quality
    else RecommendationPosition.alternative

unfoldable pub recommend : RankedPlan → ℕ → List IdentityBucket → List DiversifiedRecommendation
unfolding position_for
recommend best index [] = []
recommend best index (bucket ∷ buckets) =
    record {
      primary = bucket.primary;
      alternatives = bucket.alternatives;
      position = position_for bucket.primary best index;
    }
    ∷ recommend best (suc index) buckets

unfoldable pub recommendations : List IdentityBucket → List DiversifiedRecommendation
unfolding recommend
recommendations [] = []
recommendations (first ∷ buckets) = recommend first.primary 0 (first ∷ buckets)

unfoldable pub diversify_ranked_plans :
    RecommendationPriority
    → (commercial_use_required : Bool) → List RankedPlan
    → (limit : ℕ) → List DiversifiedRecommendation
unfolding diverse_buckets recommendations
diversify_ranked_plans priority commercial_use_required plans limit =
    recommendations (diverse_buckets priority commercial_use_required plans limit)
