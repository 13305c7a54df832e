-- ===== src/Plans/Weak/Behind.antt =====
-- Where the plans without known capability end up.
use mathlib.Core.List.{Permᴰ}
use mathlib.Core.List.Permᴰ as Perm
use jaull.Base.{
  ℕ, zero, suc, ◌≡◌, refl, ap, true, inl, inr, List, [], ◌∷◌, map, keep, length, Pairwise, keep-All,
  split-Permᴰ, arith, Bool-cases,
}
use jaull.Ladder.{RecommendationPriority}
use jaull.Plans.{RankedPlan}
use jaull.Plans.Ranks.{is_capability_first}
use jaull.Plans.Weak.{viability_group, is_capable_plan, empty_slots, fill_slots, weak_plans_last}
use jaull.Plans.Weak.Slots.{
  joined, is_other, fill_slots-Permᴰ, length-fill_slots, fill_slots-IsPlaced, empty_slots-IsPlaced,
}
use jaull.Plans.Weak.Merged.{
  MayFollow, IsCapable, merged-Permᴰ, slots_others, merged-Pairwise, keep-merged,
}

pub length-empty_slots : (n : ℕ) → length (empty_slots n) ≡ n
unfolding empty_slots
length-empty_slots zero = refl
length-empty_slots (suc n) = ap suc (length-empty_slots n)

pub length-classes : (plans : List RankedPlan) → length (map viability_group plans) ≡ length plans
length-classes [] = refl
length-classes (item ∷ plans) = ap suc (length-classes plans)

-- For Balanced and Quality, no plan without known capability stands before a capable plan that is at
-- least as viable.
pub weak_plans_last-Pairwise :
    (plans : List RankedPlan) (priority : RecommendationPriority)
    → is_capability_first priority ≡ true
    → Pairwise MayFollow (weak_plans_last plans priority)
unfolding weak_plans_last
weak_plans_last-Pairwise plans priority first =
    let capable = keep is_capable_plan plans in
    let classes = map viability_group capable in
    rw (first, weak_plans_last)
      (merged-Pairwise capable _ (keep-All IsCapable is_capable_plan (λ item h. h) plans) (
        fill_slots-IsPlaced classes plans 0 _
          (empty_slots-IsPlaced classes (suc (length capable)))))

-- The slots that the first loop ends with.
abbrev filled : List RankedPlan → List (List RankedPlan)
filled plans =
    let capable = keep is_capable_plan plans in
    fill_slots (map viability_group capable) plans 0 (empty_slots (suc (length capable)))

joined-empty_slots : (n : ℕ) → joined (empty_slots n) ≡ []
unfolding empty_slots
joined-empty_slots zero = refl
joined-empty_slots (suc n) = joined-empty_slots n

filled-Permᴰ : (plans : List RankedPlan) → Permᴰ (keep is_other plans) (joined (filled plans))
filled-Permᴰ plans =
    let n = length (keep is_capable_plan plans) in
    let classes = length-classes (keep is_capable_plan plans) in
    let slots = length-empty_slots (suc n) in
    let perm =
      fill_slots-Permᴰ (map viability_group (keep is_capable_plan plans)) plans 0
        (empty_slots (suc n)) (omega (arith, classes)) (omega (arith, classes, slots)) in
    rw (joined-empty_slots (suc n)) at perm

-- Nothing is lost, invented or repeated, and the capable plans keep their order among themselves,
-- whatever the priority.
pub weak_plans_last-Permᴰ :
    (plans : List RankedPlan) (priority : RecommendationPriority)
    → Permᴰ plans (weak_plans_last plans priority)
      × (keep is_capable_plan (weak_plans_last plans priority) ≡ keep is_capable_plan plans)
unfolding weak_plans_last
weak_plans_last-Permᴰ plans priority = elim (Bool-cases (is_capability_first priority)) [
  | inl first ↦
      let capable = keep is_capable_plan plans in
      let classes = map viability_group capable in
      let size = length-fill_slots classes plans 0 (empty_slots (suc (length capable))) in
      let slots = length-empty_slots (suc (length capable)) in
      let placed =
        fill_slots-IsPlaced classes plans 0 (empty_slots (suc (length capable)))
          (empty_slots-IsPlaced classes (suc (length capable))) in
      rw (first, weak_plans_last)
        (
          Permᴰ.trans (split-Permᴰ is_capable_plan plans) (
              Permᴰ.trans (Perm.append_left capable (filled-Permᴰ plans))
                (merged-Permᴰ capable (filled plans) (omega (arith, size, slots)))),
          keep-merged capable (filled plans)
              (keep-All IsCapable is_capable_plan (λ item h. h) plans)
              (slots_others classes (filled plans) placed),
        )
  | inr other ↦ rw (other, weak_plans_last) (Perm.refl plans, refl)
]
