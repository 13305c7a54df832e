-- ===== src/Plans/Weak/Backwards.antt =====
-- Plans without known capability only move backwards.
use mathlib.Core.List.{Memᴰ, append_assoc, append-nil}
use jaull.Base.{
  ℕ, zero, suc, ◌≤◌, ◌≡◌, refl, sym, ap, ◌∙◌, false, inl, inr, List, [], ◌∷◌, ◌++◌, map, keep, take,
  length, All, arith, Bool-cases, length-append, keep-append, keep-none, keep-All,
}
use jaull.Ladder.{RecommendationPriority}
use jaull.Plans.{RankedPlan}
use jaull.Plans.Ranks.{is_capability_first}
use jaull.Plans.Weak.{
  viability_group, is_capable_plan, empty_slots, fill_slots, interleave, merged, weak_plans_last,
}
use jaull.Plans.Weak.Slots.{fill_slots-IsPlaced, empty_slots-IsPlaced}
use jaull.Plans.Weak.Merged.{IsCapable, IsOther, interleave-merged, slots_others}
use jaull.Plans.Weak.Behind.{length-empty_slots, length-classes}
use jaull.Plans.Weak.Held.{HasAt, fill_slots-HasAt}

split-Mem :
    {item : RankedPlan} (slot : List RankedPlan)
    → Memᴰ item slot
    → All IsOther slot
    → (us : List RankedPlan) × (vs : List RankedPlan) × (slot ≡ us ++ item ∷ vs) × All IsOther us
split-Mem [] t others = elim t [ ]
split-Mem (x ∷ slot) (Memᴰ.head e) others = ([], slot, ap (λ y. y ∷ slot) (sym e), tt)
split-Mem (x ∷ slot) (Memᴰ.tail t) (here, later) =
    let (us, vs, e, others) = split-Mem slot t later in
    (x ∷ us, vs, ap (λ xs. x ∷ xs) e, (here, others))

-- A plan of a slot stands behind the capable plans up to the slot, and ahead of the others.
merged-HasAt :
    (capable : List RankedPlan) (slots : List (List RankedPlan)) (index : ℕ) {item : RankedPlan}
    → All IsCapable capable
    → All (All IsOther) slots
    → HasAt index item slots
    → index ≤ length capable
    → (us : List RankedPlan) × (vs : List RankedPlan) × (merged capable slots ≡ us ++ item ∷ vs)
      × (keep is_capable_plan us ≡ take index capable)
unfolding merged interleave
merged-HasAt capable [] index h others has le = absurd has
merged-HasAt capable (slot ∷ slots) zero {item} h (here, later) has le =
    let (us, vs, e, others) = split-Mem slot has here in
    (
      us,
      vs ++ interleave capable slots,
      ap (λ xs. xs ++ interleave capable slots) e
          ∙ append_assoc us (item ∷ vs) (interleave capable slots),
      keep-none is_capable_plan us others,
    )
merged-HasAt [] (slot ∷ slots) (suc index) h others has le = absurd (omega arith)
merged-HasAt (first ∷ capable) (slot ∷ slots) (suc index) {item} (strong, h) (here, later) has le =
    let (us, vs, e, kept) = merged-HasAt capable slots index h later has (omega arith) in
    (
      slot ++ first ∷ us,
      vs,
      rw (interleave-merged first capable slots)
          (ap (λ xs. slot ++ first ∷ xs) e ∙ sym (append_assoc slot (first ∷ us) (item ∷ vs))),
      keep-append is_capable_plan slot (first ∷ us)
          ∙ rw (keep-none is_capable_plan slot here, strong) (ap (λ xs. first ∷ xs) kept),
    )

take-longer :
    (xs ys : List RankedPlan) (n : ℕ)
    → length xs ≤ n
    → (more : List RankedPlan) × (take n (xs ++ ys) ≡ xs ++ more)
take-longer [] ys n h = (take n ys, refl)
take-longer (x ∷ xs) ys zero h = absurd (omega arith)
take-longer (x ∷ xs) ys (suc n) h =
    let (more, e) = take-longer xs ys n (omega arith) in (more, ap (λ zs. x ∷ zs) e)

-- Whatever the priority, a plan without known capability only moves backwards: the capable plans that
-- stood before it still do, ahead of any others that have come before it.
pub weak_plans_last_backwards :
    (before : List RankedPlan) (item : RankedPlan) (after : List RankedPlan)
    (priority : RecommendationPriority)
    → is_capable_plan item ≡ false
    → (us : List RankedPlan) × (vs : List RankedPlan) × (more : List RankedPlan) × (weak_plans_last
          (before ++ item ∷ after)
          priority
        ≡ us ++ item ∷ vs)
      × (keep is_capable_plan us ≡ keep is_capable_plan before ++ more)
unfolding weak_plans_last
weak_plans_last_backwards before item after priority other =
    elim (Bool-cases (is_capability_first priority)) [
      | inl first ↦
          let plans = before ++ item ∷ after in
          let capable = keep is_capable_plan plans in
          let classes = map viability_group capable in
          let n = suc (length capable) in
          let together = keep-append is_capable_plan before (item ∷ after) in
          let count = ap length together ∙ length-append (keep is_capable_plan before) _ in
          let same = length-classes capable in
          let size = length-empty_slots n in
          let slots = fill_slots classes plans 0 (empty_slots n) in
          let (index, least, most, has) =
            fill_slots-HasAt classes before item after 0 (empty_slots n) other
              (omega (arith, count, same)) (omega (arith, same, size)) in
          let others = slots_others classes slots (
            fill_slots-IsPlaced classes plans 0 (empty_slots n) (empty_slots-IsPlaced classes n)) in
          let (us, vs, e, kept) =
            merged-HasAt capable slots index
              (keep-All IsCapable is_capable_plan (λ plan h. h) plans) others has
              (omega (arith, most, same)) in
          let (more, longer) =
            take-longer (keep is_capable_plan before) (keep is_capable_plan (item ∷ after)) index
              (omega (arith, least)) in
          (
            us,
            vs,
            more,
            rw (first, weak_plans_last) e,
            kept ∙ ap (λ xs. take index xs) together ∙ longer,
          )
      | inr later ↦ (before, after, [], rw (later, weak_plans_last) refl, sym (append-nil _))
    ]
