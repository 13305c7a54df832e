-- ===== src/Plans/Varied.antt =====
-- What the variety keeps of the order of plans.
use jaull.Base.{
  ℕ, suc, ◌≡◌, refl, ap, inl, inr, List, [], ◌∷◌, length, All, Pairwise, Bool-cases, ◌==◌,
}
use jaull.Plans.{ExecutionPlan, RankedPlan}
use jaull.Plans.Diverse.{
  IdentityBucket, DiversifiedRecommendation, identity_key, bucket_of, opens, best_plans,
  less_redundant, least, remove, recommend, recommendations,
}

-- A relation of plans, on the primary plans of buckets.
abbrev pub OnPrimaries {κ} :
    (RankedPlan → RankedPlan → Type κ) → IdentityBucket → IdentityBucket → Type κ
OnPrimaries R a b = R a.primary b.primary

best_plans-All {κ} :
    (P : RankedPlan → Type κ) (plans : List RankedPlan) (seen : List (List ℕ)) (index : ℕ)
    (items : List RankedPlan)
    → All P items
    → All (λ bucket. P bucket.primary) (best_plans plans seen index items)
unfolding best_plans bucket_of
best_plans-All P plans seen index [] h = tt
best_plans-All P plans seen index (item ∷ items) (here, later) =
    elim (Bool-cases (opens seen item)) [
      | inl fresh ↦
          rw (fresh)
            (here, best_plans-All P plans (identity_key item ∷ seen) (suc index) items later)
      | inr other ↦ rw (other) (best_plans-All P plans seen (suc index) items later)
    ]

pub best_plans-Pairwise {κ} :
    (R : RankedPlan → RankedPlan → Type κ) (plans : List RankedPlan) (seen : List (List ℕ))
    (index : ℕ) (items : List RankedPlan)
    → Pairwise R items
    → Pairwise (OnPrimaries R) (best_plans plans seen index items)
unfolding best_plans bucket_of
best_plans-Pairwise R plans seen index [] h = tt
best_plans-Pairwise R plans seen index (item ∷ items) (here, later) =
    elim (Bool-cases (opens seen item)) [
      | inl fresh ↦ rw (fresh) (
        best_plans-All (R item) plans (identity_key item ∷ seen) (suc index) items here,
        best_plans-Pairwise R plans (identity_key item ∷ seen) (suc index) items later,
      )
      | inr other ↦ rw (other) (best_plans-Pairwise R plans seen (suc index) items later)
    ]

-- A property that the first and all others have is one of the chosen bucket.
pub least-All {κ} :
    (P : IdentityBucket → Type κ) (selected : List ExecutionPlan) (best : IdentityBucket)
    (buckets : List IdentityBucket)
    → P best
    → All P buckets
    → P (least selected best buckets)
unfolding least
least-All P selected best [] h all = h
least-All P selected best (bucket ∷ buckets) h (here, later) =
    elim (Bool-cases (less_redundant selected bucket best)) [
      | inl less ↦ rw (less) (least-All P selected bucket buckets here later)
      | inr other ↦ rw (other) (least-All P selected best buckets h later)
    ]

pub remove-All {κ} :
    (P : IdentityBucket → Type κ) (index : ℕ) (buckets : List IdentityBucket)
    → All P buckets
    → All P (remove index buckets)
unfolding remove
remove-All P index [] h = tt
remove-All P index (bucket ∷ buckets) (here, later) =
    elim (Bool-cases (bucket.original_index == index)) [
      | inl same ↦ rw (same) later
      | inr other ↦ rw (other) (here, remove-All P index buckets later)
    ]

pub remove-Pairwise {κ} :
    (R : IdentityBucket → IdentityBucket → Type κ) (index : ℕ) (buckets : List IdentityBucket)
    → Pairwise R buckets
    → Pairwise R (remove index buckets)
unfolding remove
remove-Pairwise R index [] h = tt
remove-Pairwise R index (bucket ∷ buckets) (here, later) =
    elim (Bool-cases (bucket.original_index == index)) [
      | inl same ↦ rw (same) later
      | inr other ↦
          rw (other)
            (remove-All (R bucket) index buckets here, remove-Pairwise R index buckets later)
    ]

-- A relation of plans, on the primary plans of recommendations.
abbrev pub OnRecommended {κ} :
    (RankedPlan → RankedPlan → Type κ)
    → DiversifiedRecommendation
    → DiversifiedRecommendation
    → Type κ
OnRecommended R a b = R a.primary b.primary

recommend-All {κ} :
    (P : RankedPlan → Type κ) (best : RankedPlan) (index : ℕ) (buckets : List IdentityBucket)
    → All (λ bucket. P bucket.primary) buckets
    → All (λ recommended. P recommended.primary) (recommend best index buckets)
unfolding recommend
recommend-All P best index [] h = tt
recommend-All P best index (bucket ∷ buckets) (here, later) =
    (here, recommend-All P best (suc index) buckets later)

recommend-Pairwise {κ} :
    (R : RankedPlan → RankedPlan → Type κ) (best : RankedPlan) (index : ℕ)
    (buckets : List IdentityBucket)
    → Pairwise (OnPrimaries R) buckets
    → Pairwise (OnRecommended R) (recommend best index buckets)
unfolding recommend
recommend-Pairwise R best index [] h = tt
recommend-Pairwise R best index (bucket ∷ buckets) (here, later) = (
  recommend-All (R bucket.primary) best (suc index) buckets here,
  recommend-Pairwise R best (suc index) buckets later,
)

pub recommendations-All {κ} :
    (P : RankedPlan → Type κ) (buckets : List IdentityBucket)
    → All (λ bucket. P bucket.primary) buckets
    → All (λ recommended. P recommended.primary) (recommendations buckets)
unfolding recommendations
recommendations-All P [] h = tt
recommendations-All P (first ∷ buckets) h = recommend-All P first.primary 0 (first ∷ buckets) h

pub recommendations-Pairwise {κ} :
    (R : RankedPlan → RankedPlan → Type κ) (buckets : List IdentityBucket)
    → Pairwise (OnPrimaries R) buckets
    → Pairwise (OnRecommended R) (recommendations buckets)
unfolding recommendations
recommendations-Pairwise R [] h = tt
recommendations-Pairwise R (first ∷ buckets) h =
    recommend-Pairwise R first.primary 0 (first ∷ buckets) h

length-recommend :
    (best : RankedPlan) (index : ℕ) (buckets : List IdentityBucket)
    → length (recommend best index buckets) ≡ length buckets
unfolding recommend
length-recommend best index [] = refl
length-recommend best index (bucket ∷ buckets) = ap suc (length-recommend best (suc index) buckets)

pub length-recommendations :
    (buckets : List IdentityBucket) → length (recommendations buckets) ≡ length buckets
unfolding recommendations
length-recommendations [] = refl
length-recommendations (first ∷ buckets) = length-recommend first.primary 0 (first ∷ buckets)
