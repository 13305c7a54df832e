-- ===== src/Recommend/Order.antt =====
-- The order of the candidates and the selection: src/jaull/recommendation/ranker.py.
use jaull.Base.{
  ℕ, Bool, true, false, not, ◌&&◌, ◌||◌, Option, none, some, List, [], ◌∷◌, ◌++◌, keep, take, ltb,
  ◌==◌, codes, if◌then◌else◌,
}
use jaull.Estimation.{CompatibilityStatus, EstimationConfidence}
use jaull.Recommend.{
  EvaluatedCandidate, status_of, assess_actionability, is_blocked, is_insufficient,
  is_unknown_status,
}

-- A candidate with `round(breakdown.total, 6)`, in millionths.
pub record Scored : Type 0 where
  pub candidate : EvaluatedCandidate
  pub total : ℕ

-- `STATUS_RANK`
unfoldable pub status_rank : CompatibilityStatus → ℕ
status_rank CompatibilityStatus.comfortable = 0
status_rank CompatibilityStatus.compatible = 1
status_rank CompatibilityStatus.tight = 2
status_rank CompatibilityStatus.offloading_required = 3
status_rank CompatibilityStatus.unknown = 4
status_rank CompatibilityStatus.insufficient = 5

-- `CONFIDENCE_SCORE`, in hundredths.
unfoldable pub confidence_score : EstimationConfidence → ℕ
confidence_score EstimationConfidence.high = 100
confidence_score EstimationConfidence.medium = 70
confidence_score EstimationConfidence.low = 40
confidence_score EstimationConfidence.unknown = 15

unfoldable pub confidence_of : EvaluatedCandidate → EstimationConfidence
confidence_of evaluated = elim evaluated.compatibility [
  | none ↦ evaluated.metadata_confidence
  | some assessment ↦ assessment.confidence
]

-- `a < b` on texts, by code points.
unfoldable pub codes_before : List ℕ → List ℕ → Bool
codes_before _ [] = false
codes_before [] (_ ∷ _) = true
codes_before (a ∷ xs) (b ∷ ys) = ltb a b || ((a == b) && codes_before xs ys)

-- Lexicographic steps: smaller first, or larger first where the source negates the key.
abbrev smaller_first : ℕ → ℕ → Bool → Bool
smaller_first a b later = ltb a b || ((a == b) && later)

abbrev larger_first : ℕ → ℕ → Bool → Bool
larger_first a b later = smaller_first b a later

-- `key(a) < key(b)`
unfoldable pub precedes : Scored → Scored → Bool
unfolding status_rank status_of confidence_score confidence_of codes_before
precedes a b = larger_first a.total b.total (
    smaller_first (status_rank (status_of a.candidate)) (status_rank (status_of b.candidate)) (
      larger_first (confidence_score (confidence_of a.candidate))
        (confidence_score (confidence_of b.candidate))
        (larger_first a.candidate.downloads b.candidate.downloads
          (codes_before (codes a.candidate.repo_id) (codes b.candidate.repo_id)))))

-- `sorted`, which is stable: an element goes before all that do not precede it.
unfoldable pub insert : Scored → List Scored → List Scored
unfolding precedes
insert x [] = x ∷ []
insert x (y ∷ ys) = if precedes y x then y ∷ insert x ys else x ∷ y ∷ ys

unfoldable pub sort_candidates : List Scored → List Scored
unfolding insert
sort_candidates [] = []
sort_candidates (x ∷ xs) = insert x (sort_candidates xs)

-- `has_confirmed_memory_compatibility`
unfoldable pub has_confirmed_memory_compatibility : CompatibilityStatus → Bool
has_confirmed_memory_compatibility status =
    not (is_insufficient status) && not (is_unknown_status status)

unfoldable pub can_be_primary : EvaluatedCandidate → Bool
unfolding status_rank status_of assess_actionability
can_be_primary evaluated =
    not (is_unknown_status (status_of evaluated))
    && not (is_blocked (assess_actionability evaluated))
    && not (
        ltb (status_rank CompatibilityStatus.offloading_required)
          (status_rank (status_of evaluated)))

-- The filter of `select_ranked`.
unfoldable pub is_selectable : Scored → Bool
unfolding status_of assess_actionability
is_selectable pair =
    not (is_insufficient (status_of pair.candidate))
    && not (is_blocked (assess_actionability pair.candidate))

unfoldable pub is_confirmed_pair : Scored → Bool
unfolding has_confirmed_memory_compatibility status_of
is_confirmed_pair pair = has_confirmed_memory_compatibility (status_of pair.candidate)

-- The first pair that may lead, and the others in their order.
unfoldable pub find_primary : List Scored → Option (Scored × List Scored)
unfolding can_be_primary
find_primary [] = none
find_primary (pair ∷ pairs) =
    let rest = find_primary pairs in
    if can_be_primary pair.candidate
    then some (pair, pairs)
    else elim rest [ none ↦ none | some (primary, others) ↦ some (primary, pair ∷ others) ]

unfoldable pub promote_primary : List Scored → List Scored
unfolding find_primary
promote_primary pairs = elim (find_primary pairs) [
  | none ↦ pairs
  | some (primary, others) ↦ primary ∷ others
]

-- The selectable pairs, those of confirmed memory fit first.
unfoldable pub grouped : List Scored → List Scored
unfolding sort_candidates is_selectable is_confirmed_pair
grouped evaluated =
    let ordered = keep is_selectable (sort_candidates evaluated) in
    keep is_confirmed_pair ordered ++ keep (λ pair. not (is_confirmed_pair pair)) ordered

unfoldable pub select_ranked : List Scored → ℕ → List Scored
unfolding grouped promote_primary
select_ranked evaluated limit = take limit (promote_primary (grouped evaluated))
