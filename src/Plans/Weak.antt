-- ===== src/Plans/Weak.antt =====
-- Plans without known capability behind the capable ones: src/jaull/recommendation/selection.py.
pub mod Slots
pub mod Merged
pub mod Behind
pub mod Held
pub mod Backwards
use jaull.Base.{
  lexicographic, ℕ, zero, suc, Bool, true, false, not, List, [], ◌∷◌, ◌++◌, map, keep, length, ltb,
  max, if◌then◌else◌,
}
use jaull.Ladder.{RecommendationPriority}
use jaull.Plans.{RankedPlan, rejected}
use jaull.Plans.Ranks.{is_capability_first, is_capable, runnability_rank, is_placed}

-- The class of a plan: whether it is rejected, whether its memory fit is unconfirmed, and how it runs.
pub record Viability : Type 0 where
  pub is_rejected : Bool
  pub is_unconfirmed : Bool
  pub runnability : ℕ

unfoldable pub viability_group : RankedPlan → Viability
unfolding rejected is_placed runnability_rank
viability_group item = record {
  is_rejected = rejected item.assessment;
  is_unconfirmed = not (is_placed item);
  runnability = runnability_rank item.assessment;
}

-- A Boolean as Python orders it.
abbrev bit : Bool → ℕ
bit false = 0
bit true = 1

-- `other < own` on classes.
unfoldable pub group_before : Viability → Viability → Bool
group_before a b =
    lexicographic ltb (bit a.is_rejected ∷ bit a.is_unconfirmed ∷ a.runnability ∷ [])
      (bit b.is_rejected ∷ bit b.is_unconfirmed ∷ b.runnability ∷ [])

-- `other <= own`: a capable plan of the class `other` is at least as viable as one of the class `own`.
unfoldable pub at_least_as_viable : Viability → Viability → Bool
unfolding group_before
at_least_as_viable other own = not (group_before own other)

abbrev pub is_capable_plan : RankedPlan → Bool
is_capable_plan item = is_capable item.assessment.capability

-- `max(i + 1 for i, other in enumerate(classes) if other <= own)`, or 0.
unfoldable pub anchor : Viability → List Viability → ℕ
unfolding at_least_as_viable
anchor own [] = 0
anchor own (other ∷ classes) =
    let later = anchor own classes in
    if ltb 0 later then suc later else if at_least_as_viable other own then 1 else 0

-- `slots[index].append(plan)`; the index is at most the number of capable plans.
unfoldable pub append_at : ℕ → RankedPlan → List (List RankedPlan) → List (List RankedPlan)
append_at index item [] = []
append_at zero item (slot ∷ slots) = (slot ++ (item ∷ [])) ∷ slots
append_at (suc index) item (slot ∷ slots) = slot ∷ append_at index item slots

unfoldable pub empty_slots : ℕ → List (List RankedPlan)
empty_slots zero = []
empty_slots (suc n) = [] ∷ empty_slots n

-- The loop over the plans, with `seen_capable` and `slots`.
unfoldable pub fill_slots :
    List Viability → List RankedPlan → ℕ → List (List RankedPlan) → List (List RankedPlan)
unfolding viability_group anchor append_at
fill_slots classes [] seen_capable slots = slots
fill_slots classes (item ∷ items) seen_capable slots =
    let capable = is_capable_plan item in
    fill_slots classes items (if capable then suc seen_capable else seen_capable) (
      if capable
      then slots
      else append_at (max seen_capable (anchor (viability_group item) classes)) item slots)

-- The loop over the capable plans: each is followed by its slot.
unfoldable pub interleave : List RankedPlan → List (List RankedPlan) → List RankedPlan
interleave [] slots = []
interleave (item ∷ capable) [] = item ∷ interleave capable []
interleave (item ∷ capable) (slot ∷ slots) = item ∷ (slot ++ interleave capable slots)

-- `slots[0]`, then the capable plans with the other slots.
unfoldable pub merged : List RankedPlan → List (List RankedPlan) → List RankedPlan
unfolding interleave
merged capable [] = interleave capable []
merged capable (slot ∷ slots) = slot ++ interleave capable slots

unfoldable pub weak_plans_last : List RankedPlan → RecommendationPriority → List RankedPlan
unfolding is_capability_first fill_slots viability_group empty_slots merged
weak_plans_last plans priority =
    if not (is_capability_first priority)
    then plans
    else let capable = keep is_capable_plan plans in
      let classes = map viability_group capable in
      merged capable (fill_slots classes plans 0 (empty_slots (suc (length capable))))
