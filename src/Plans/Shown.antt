-- ===== src/Plans/Shown.antt =====
-- The order in which plans are shown is the one that the criteria explain.
use mathlib.Core.List.{Permᴰ, append-nil}
use jaull.Base.{
  ℕ, ◌≡◌, refl, sym, ◌∙◌, Bool, true, false, not, Option, none, some, List, [], ◌∷◌, ◌++◌, keep,
  drop, take-drop, lexicographic, split-Permᴰ, sort_by, sort_by-Permᴰ, sort_by-Pairwise, Pairwise,
  All, All-map, keep-All, Pairwise-keep, Pairwise-append, IsCut, take-IsCut, arith,
}
use jaull.Ladder.{RecommendationPriority}
use jaull.Plans.{RankedPlan}
use jaull.Plans.Ranks.{is_viable}
use jaull.Plans.Keys.{
  int_before, ranking_tie_key, ranking_key, sorts_before, prioritize_confirmed_memory_fit,
  order_plans,
}
use jaull.Plans.Criteria.{explained_before}
use jaull.Plans.Mirror.{explained_before-ranking_tie_key}
use jaull.Plans.Compared.{sorts_before-IsOrder, numbers_first, length-ranking_tie_key, same_first}

module _ (priority : RecommendationPriority) (commercial_use_required : Bool) where
  -- `a` may be shown before `b`.
  abbrev pub IsExplained : RankedPlan → RankedPlan → Type 0
  IsExplained a b = explained_before priority commercial_use_required b a ≡ false

  abbrev IsSorted : RankedPlan → RankedPlan → Type 0
  IsSorted a b = sorts_before priority commercial_use_required b a ≡ false

  sorted_key :
      (a b : RankedPlan)
      → IsSorted a b
      → lexicographic int_before
          (ranking_tie_key b priority commercial_use_required)
          (ranking_tie_key a priority commercial_use_required)
        ≡ false
  unfolding sorts_before ranking_key
  sorted_key a b h =
      numbers_first (ranking_tie_key b priority commercial_use_required)
        (ranking_tie_key a priority commercial_use_required) _ _
        (length-ranking_tie_key b a priority commercial_use_required) h

  IsExplained-alike :
      (a b : RankedPlan) → is_viable a ≡ is_viable b → IsSorted a b → IsExplained a b
  unfolding int_before
  IsExplained-alike a b alike h =
      explained_before-ranking_tie_key b a priority commercial_use_required
      ∙ rw (alike) (
          same_first (is_viable b) (ranking_tie_key b priority commercial_use_required)
            (ranking_tie_key a priority commercial_use_required) (sorted_key a b h))

  IsExplained-apart :
      (a b : RankedPlan) → is_viable a ≡ true → is_viable b ≡ false → IsExplained a b
  unfolding int_before
  IsExplained-apart a b viable other =
      explained_before-ranking_tie_key b a priority commercial_use_required
      ∙ rw (viable, other) refl

  sorted_first :
      (viable : Bool) (a : RankedPlan) (items : List RankedPlan)
      → is_viable a ≡ viable
      → All (λ item. is_viable item ≡ viable) items
      → All (IsSorted a) items
      → All (IsExplained a) items
  sorted_first viable a [] same h sorted = tt
  sorted_first viable a (b ∷ items) same (here, later) (first, others) =
      (IsExplained-alike a b (same ∙ sym here) first, sorted_first viable a items same later others)

  sorted_alike :
      (viable : Bool) (items : List RankedPlan)
      → All (λ item. is_viable item ≡ viable) items
      → Pairwise IsSorted items
      → Pairwise IsExplained items
  sorted_alike viable [] h sorted = tt
  sorted_alike viable (item ∷ items) (here, later) (first, others) =
      (sorted_first viable item items here later first, sorted_alike viable items later others)

  viable_first :
      (items others : List RankedPlan)
      → All (λ item. is_viable item ≡ true) items
      → All (λ item. is_viable item ≡ false) others
      → All (λ item. All (IsExplained item) others) items
  viable_first [] others h h' = tt
  viable_first (item ∷ items) others (here, later) h' = (
    All-map (λ other. is_viable other ≡ false)
        (λ other apart. IsExplained-apart item other here apart) others h',
    viable_first items others later h',
  )

  prioritized-Pairwise :
      (items : List RankedPlan)
      → Pairwise IsSorted items
      → Pairwise IsExplained (prioritize_confirmed_memory_fit items)
  unfolding prioritize_confirmed_memory_fit
  prioritized-Pairwise items sorted =
      let viable = keep-All (λ item. is_viable item ≡ true) is_viable (λ item h. h) items in
      let others =
        keep-All (λ item. is_viable item ≡ false) (λ item. not (is_viable item))
          (λ item h. ground (arith, h)) items in
      Pairwise-append IsExplained (keep is_viable items) (keep (λ item. not (is_viable item)) items)
        (sorted_alike true (keep is_viable items) viable
          (Pairwise-keep IsSorted is_viable items sorted))
        (sorted_alike false (keep (λ item. not (is_viable item)) items) others
          (Pairwise-keep IsSorted (λ item. not (is_viable item)) items sorted))
        (viable_first (keep is_viable items) (keep (λ item. not (is_viable item)) items) viable
          others)

  sorted-Explained :
      (ranked : List RankedPlan)
      → let ordered = order_plans priority commercial_use_required none ranked in
        Pairwise IsExplained ordered × Permᴰ ranked ordered
  unfolding order_plans prioritize_confirmed_memory_fit
  sorted-Explained ranked =
      let before = sorts_before priority commercial_use_required in
      let ordered = sort_by before ranked in
      (
        prioritized-Pairwise ordered (
            sort_by-Pairwise before (sorts_before-IsOrder priority commercial_use_required) ranked),
        Permᴰ.trans (sort_by-Permᴰ before ranked) (split-Permᴰ is_viable ordered),
      )

  -- The plans shown and those cut off are together the ranked ones, each as often as it was ranked,
  -- and the criteria never explain a plan before one that stands ahead of it in that list. Nothing is
  -- cut off without a limit, and with one only when as many plans as it allows are shown.
  pub order_plans-Explained :
      (limit : Option ℕ) (ranked : List RankedPlan)
      → let shown = order_plans priority commercial_use_required limit ranked in
        (cut : List RankedPlan) × Pairwise IsExplained (shown ++ cut)
        × Permᴰ ranked (shown ++ cut)
        × IsCut limit shown cut
  unfolding order_plans
  order_plans-Explained none ranked =
      let (explained, perm) = sorted-Explained ranked in
      let whole = append-nil (order_plans priority commercial_use_required none ranked) in
      ([], rw (whole) explained, rw (whole) perm, refl)
  order_plans-Explained (some n) ranked =
      let (explained, perm) = sorted-Explained ranked in
      let ordered = order_plans priority commercial_use_required none ranked in
      let whole = take-drop n ordered in
      (drop n ordered, rw (whole) explained, rw (whole) perm, take-IsCut n ordered)
