-- ===== src/Plans/Distinct.antt =====
-- The recommendations are of different models.
use mathlib.Core.List.{Memᴰ}
use jaull.Base.{
  ℕ, zero, suc, ◌≤◌, ◌≡◌, Bool, false, List, [], ◌∷◌, ◌++◌, length, All, All-map, All-keep,
  Pairwise, arith,
}
use jaull.Ladder.{RecommendationPriority}
use jaull.Plans.{ExecutionPlan, RankedPlan, rejected}
use jaull.Plans.Diverse.{
  IdentityBucket, best_plan_per_identity, is_tied, remove, choose_next, choose_rest, choose_from,
  diverse_buckets, diversify_ranked_plans,
}
use jaull.Plans.Varied.{
  OnPrimaries, OnRecommended, recommendations-All, recommendations-Pairwise, length-recommendations,
  least-All, remove-Pairwise,
}
use jaull.Plans.Ordered.{choose_rest-All}
use jaull.Plans.Fresh.{
  AreDifferent, InOrder, IsFresh, best_plans-IsFresh, best_plans-InOrder, remove-Different, members,
}

module _ (priority : RecommendationPriority) (commercial_use_required : Bool) where
  chosen-Mem :
      (selected : List ExecutionPlan) (leader : IdentityBucket) (others : List IdentityBucket)
      → Memᴰ (choose_next priority commercial_use_required selected leader others) (leader ∷ others)
  unfolding choose_next
  chosen-Mem selected leader others =
      let (first, later) = members (leader ∷ others) in
      least-All (λ b. Memᴰ b (leader ∷ others)) selected leader _ first
        (All-keep (λ b. Memᴰ b (leader ∷ others))
          (λ b. is_tied priority commercial_use_required b.primary leader.primary) others later)

  choose_rest-Different :
      (room : ℕ) (selected : List ExecutionPlan) (remaining : List IdentityBucket)
      → Pairwise InOrder remaining
      → Pairwise
          (OnPrimaries AreDifferent)
          (choose_rest priority commercial_use_required room selected remaining)
  unfolding choose_rest
  choose_rest-Different zero selected remaining h = tt
  choose_rest-Different (suc room) selected [] h = tt
  choose_rest-Different (suc room) selected (leader ∷ others) h =
      let candidate = choose_next priority commercial_use_required selected leader others in
      let rest = remove candidate.original_index (leader ∷ others) in
      (
        choose_rest-All priority commercial_use_required
            (λ b. AreDifferent candidate.primary b.primary) room _ rest
            (remove-Different (leader ∷ others) candidate (chosen-Mem selected leader others) h),
        choose_rest-Different room _ rest
            (remove-Pairwise InOrder candidate.original_index (leader ∷ others) h),
      )

  length-choose_rest :
      (room : ℕ) (selected : List ExecutionPlan) (remaining : List IdentityBucket)
      → length (choose_rest priority commercial_use_required room selected remaining) ≤ room
  unfolding choose_rest
  length-choose_rest zero selected remaining = omega arith
  length-choose_rest (suc room) selected [] = omega arith
  length-choose_rest (suc room) selected (leader ∷ others) =
      let candidate = choose_next priority commercial_use_required selected leader others in
      let rest =
        length-choose_rest room (selected ++ candidate.primary.plan ∷ [])
          (remove candidate.original_index (leader ∷ others)) in
      omega (arith, rest)

  choose_from-Different :
      (room : ℕ) (buckets : List IdentityBucket)
      → Pairwise InOrder buckets
      → let chosen = choose_from priority commercial_use_required room buckets in
        Pairwise (OnPrimaries AreDifferent) chosen × (length chosen ≤ suc room)
  unfolding choose_from
  choose_from-Different room [] h = (tt, omega arith)
  choose_from-Different room (first ∷ remaining) (here, later) =
      let size = length-choose_rest room (first.primary.plan ∷ []) remaining in
      (
        (
          choose_rest-All priority commercial_use_required
              (λ b. AreDifferent first.primary b.primary) room _ remaining
              (All-map (InOrder first) (λ b h. h.0) remaining here),
          choose_rest-Different room _ remaining later,
        ),
        omega (arith, size),
      )

  choose_from-All {κ} :
      (P : IdentityBucket → Type κ) (room : ℕ) (buckets : List IdentityBucket)
      → All P buckets
      → All P (choose_from priority commercial_use_required room buckets)
  unfolding choose_from
  choose_from-All P room [] h = tt
  choose_from-All P room (first ∷ remaining) (here, later) =
      (here, choose_rest-All priority commercial_use_required P room _ remaining later)

  -- Whatever plans come in, the recommendations are at most as many as the limit, of different models,
  -- and none is rejected.
  pub diversify_ranked_plans-Different :
      (plans : List RankedPlan) (limit : ℕ)
      → let recommended = diversify_ranked_plans priority commercial_use_required plans limit in
        Pairwise (OnRecommended AreDifferent) recommended
        × All (λ r. rejected r.primary.assessment ≡ false) recommended
        × (length recommended ≤ limit)
  unfolding diversify_ranked_plans diverse_buckets best_plan_per_identity
  diversify_ranked_plans-Different plans zero = (tt, tt, omega arith)
  diversify_ranked_plans-Different plans (suc room) =
      let buckets = best_plan_per_identity plans in
      let chosen = choose_from priority commercial_use_required room buckets in
      let (different, size) =
        choose_from-Different room buckets (best_plans-InOrder plans [] 0 plans) in
      let fresh = best_plans-IsFresh plans [] 0 plans in
      (
        recommendations-Pairwise AreDifferent chosen different,
        recommendations-All (λ item. rejected item.assessment ≡ false) chosen
            (choose_from-All (λ b. rejected b.primary.assessment ≡ false) room buckets
              (All-map (IsFresh [] 0) (λ b h. h.2) buckets fresh)),
        rw (length-recommendations chosen) size,
      )
