-- ===== src/Plans/Ordered.antt =====
-- The variety never puts a model ahead of one that the ranking key places before it.
use jaull.Base.{
  ℕ, zero, suc, ◌≡◌, Bool, true, false, inl, inr, List, [], ◌∷◌, keep, All, All-map, All-keep,
  keep-All, Pairwise, lexicographic, IsOrder, lexicographic-IsOrder, Bool-cases, and_cases,
  not-true,
}
use jaull.Base.Int.{ℤ}
use jaull.Ladder.{RecommendationPriority}
use jaull.Plans.{ExecutionPlan, RankedPlan}
use jaull.Plans.Keys.{int_before, ranking_tie_key}
use jaull.Plans.Mirror.{int_before-IsOrder}
use jaull.Plans.Diverse.{
  IdentityBucket, best_plan_per_identity, is_tied, remove, choose_next, choose_rest, choose_from,
  diverse_buckets, diversify_ranked_plans,
}
use jaull.Plans.Varied.{
  OnPrimaries, best_plans-Pairwise, least-All, remove-All, remove-Pairwise, OnRecommended,
  recommendations-Pairwise,
}

key-IsOrder : IsOrder (lexicographic int_before)
key-IsOrder = lexicographic-IsOrder int_before int_before-IsOrder

not_before_itself : (key : List ℤ) → lexicographic int_before key key ≡ false
not_before_itself key = elim (Bool-cases (lexicographic int_before key key)) [
  | inl first ↦ key-IsOrder.0 key key first
  | inr other ↦ other
]

module _ (priority : RecommendationPriority) (commercial_use_required : Bool) where
  abbrev key_of : RankedPlan → List ℤ
  key_of item = ranking_tie_key item priority commercial_use_required

  -- The ranking does not place `later` before `item`.
  abbrev pub IsRanked : RankedPlan → RankedPlan → Type 0
  IsRanked item later = lexicographic int_before (key_of later) (key_of item) ≡ false

  IsRanked-tied :
      (a b c : RankedPlan)
      → is_tied priority commercial_use_required a b ≡ true
      → IsRanked b c
      → IsRanked a c
  unfolding is_tied
  IsRanked-tied a b c tied h =
      let (_, not_before) = and_cases _ _ tied in
      key-IsOrder.1 (key_of a) (key_of b) (key_of c) (not-true _ not_before) h

  abbrev RanksAhead : List IdentityBucket → IdentityBucket → Type 0
  RanksAhead buckets a = All (λ b. IsRanked a.primary b.primary) buckets

  RanksAhead-tied :
      (leader : IdentityBucket) (others buckets : List IdentityBucket)
      → RanksAhead buckets leader
      → All
          (RanksAhead buckets)
          (keep (λ b. is_tied priority commercial_use_required b.primary leader.primary) others)
  RanksAhead-tied leader others buckets ahead =
      keep-All (RanksAhead buckets)
        (λ b. is_tied priority commercial_use_required b.primary leader.primary)
        (λ b tied.
          All-map (λ c. IsRanked leader.primary c.primary)
            (λ c h. IsRanked-tied b.primary leader.primary c.primary tied h) buckets ahead)
        others

  chosen-RanksAhead :
      (selected : List ExecutionPlan) (leader : IdentityBucket) (others : List IdentityBucket)
      → RanksAhead others leader
      → RanksAhead
          (leader ∷ others)
          (choose_next priority commercial_use_required selected leader others)
  unfolding choose_next
  chosen-RanksAhead selected leader others ahead =
      let all : RanksAhead (leader ∷ others) leader =
        (not_before_itself (key_of leader.primary), ahead) in
      least-All (RanksAhead (leader ∷ others)) selected leader
        (keep (λ b. is_tied priority commercial_use_required b.primary leader.primary) others) all
        (RanksAhead-tied leader others (leader ∷ others) all)

  pub choose_rest-All {κ} :
      (P : IdentityBucket → Type κ) (room : ℕ) (selected : List ExecutionPlan)
      (remaining : List IdentityBucket)
      → All P remaining
      → All P (choose_rest priority commercial_use_required room selected remaining)
  unfolding choose_rest choose_next
  choose_rest-All P zero selected remaining h = tt
  choose_rest-All P (suc room) selected [] h = tt
  choose_rest-All P (suc room) selected (leader ∷ others) (here, later) = (
    least-All P selected leader
        (keep (λ b. is_tied priority commercial_use_required b.primary leader.primary) others) here
        (All-keep P (λ b. is_tied priority commercial_use_required b.primary leader.primary) others
          later),
    choose_rest-All P room _ (remove _ (leader ∷ others))
        (remove-All P _ (leader ∷ others) (here, later)),
  )

  choose_rest-Pairwise :
      (room : ℕ) (selected : List ExecutionPlan) (remaining : List IdentityBucket)
      → Pairwise (OnPrimaries IsRanked) remaining
      → Pairwise
          (OnPrimaries IsRanked)
          (choose_rest priority commercial_use_required room selected remaining)
  unfolding choose_rest
  choose_rest-Pairwise zero selected remaining h = tt
  choose_rest-Pairwise (suc room) selected [] h = tt
  choose_rest-Pairwise (suc room) selected (leader ∷ others) (here, later) =
      let candidate = choose_next priority commercial_use_required selected leader others in
      (
        choose_rest-All (λ b. IsRanked candidate.primary b.primary) room _
            (remove candidate.original_index (leader ∷ others))
            (remove-All (λ b. IsRanked candidate.primary b.primary) candidate.original_index
              (leader ∷ others) (chosen-RanksAhead selected leader others here)),
        choose_rest-Pairwise room _ (remove candidate.original_index (leader ∷ others)) (
            remove-Pairwise (OnPrimaries IsRanked) candidate.original_index (leader ∷ others)
              (here, later)),
      )

  choose_from-Pairwise :
      (room : ℕ) (buckets : List IdentityBucket)
      → Pairwise (OnPrimaries IsRanked) buckets
      → Pairwise (OnPrimaries IsRanked) (choose_from priority commercial_use_required room buckets)
  unfolding choose_from
  choose_from-Pairwise room [] h = tt
  choose_from-Pairwise room (first ∷ remaining) (here, later) = (
    choose_rest-All (λ b. IsRanked first.primary b.primary) room _ remaining here,
    choose_rest-Pairwise room _ remaining later,
  )

  -- Whatever the limit, plans that come in the order of the key are recommended in that order: of two
  -- recommendations, the key never places the later plan before the earlier.
  pub diversify_ranked_plans-Pairwise :
      (plans : List RankedPlan) (limit : ℕ)
      → Pairwise IsRanked plans
      → Pairwise
          (OnRecommended IsRanked)
          (diversify_ranked_plans priority commercial_use_required plans limit)
  unfolding diversify_ranked_plans diverse_buckets best_plan_per_identity
  diversify_ranked_plans-Pairwise plans zero h = recommendations-Pairwise IsRanked [] tt
  diversify_ranked_plans-Pairwise plans (suc room) h = recommendations-Pairwise IsRanked _ (
      choose_from-Pairwise room (best_plan_per_identity plans)
        (best_plans-Pairwise IsRanked plans [] 0 plans h))
