-- ===== src/Plans/Weak/Merged.antt =====
-- The capable plans with their slots, as one list.
use mathlib.Core.List.{Permᴰ, append-nil}
use mathlib.Core.List.Permᴰ as Perm
use jaull.Base.{
  suc, ◌≤◌, ◌≡◌, refl, ap, ◌∙◌, true, false, List, [], ◌∷◌, ◌++◌, map, keep, length, All,
  All-append, All-map, All-of, Pairwise, Pairwise-append, drop, keep-append, keep-none, arith,
}
use jaull.Plans.{RankedPlan}
use jaull.Plans.Weak.{
  Viability, viability_group, at_least_as_viable, is_capable_plan, interleave, merged,
}
use jaull.Plans.Weak.Slots.{joined, IsBehind, IsPlaced}

-- `later` may follow `item`: not a capable plan that is at least as viable as a plan which is not.
abbrev pub MayFollow : RankedPlan → RankedPlan → Type 0
MayFollow item later =
    is_capable_plan item ≡ false
    → is_capable_plan later ≡ true
    → at_least_as_viable (viability_group later) (viability_group item) ≡ false

abbrev pub IsCapable : RankedPlan → Type 0
IsCapable item = is_capable_plan item ≡ true

abbrev pub IsOther : RankedPlan → Type 0
IsOther item = is_capable_plan item ≡ false

pub interleave-merged :
    (item : RankedPlan) (capable : List RankedPlan) (slots : List (List RankedPlan))
    → interleave (item ∷ capable) slots ≡ item ∷ merged capable slots
unfolding interleave merged
interleave-merged item capable [] = refl
interleave-merged item capable (slot ∷ slots) = refl

exchange : (xs ys zs : List RankedPlan) → Permᴰ (xs ++ (ys ++ zs)) (ys ++ (xs ++ zs))
exchange xs [] zs = Perm.refl (xs ++ zs)
exchange xs (y ∷ ys) zs =
    Permᴰ.trans (Perm.middle y xs (ys ++ zs)) (Permᴰ.cons refl (exchange xs ys zs))

-- The merged list is the capable plans and those of the slots.
pub merged-Permᴰ :
    (capable : List RankedPlan) (slots : List (List RankedPlan))
    → length slots ≤ suc (length capable)
    → Permᴰ (capable ++ joined slots) (merged capable slots)
unfolding merged interleave
merged-Permᴰ [] [] h = Perm.refl []
merged-Permᴰ [] (slot ∷ []) h = Perm.refl (slot ++ [])
merged-Permᴰ [] (slot ∷ other ∷ slots) h = absurd (omega arith)
merged-Permᴰ (item ∷ capable) [] h = Permᴰ.cons refl (merged-Permᴰ capable [] (omega arith))
merged-Permᴰ (item ∷ capable) (slot ∷ slots) h = rw (interleave-merged item capable slots) (
    Permᴰ.trans (exchange (item ∷ capable) slot (joined slots))
      (Perm.append_left slot (Permᴰ.cons refl (merged-Permᴰ capable slots (omega arith)))))

merged-All {κ} :
    (P : RankedPlan → Type κ) (capable : List RankedPlan) (slots : List (List RankedPlan))
    → All P capable
    → All (All P) slots
    → All P (merged capable slots)
unfolding merged interleave
merged-All P [] [] h h' = tt
merged-All P [] (slot ∷ slots) h (here, later) = All-append P slot [] here tt
merged-All P (item ∷ capable) [] (here, later) h' = (here, merged-All P capable [] later tt)
merged-All P (item ∷ capable) (slot ∷ slots) (first, others) (here, later) =
    All-append P slot _ here
      (rw (interleave-merged item capable slots) (first, merged-All P capable slots others later))

pub slots_others :
    (classes : List Viability) (slots : List (List RankedPlan))
    → IsPlaced classes slots
    → All (All IsOther) slots
slots_others classes [] placed = tt
slots_others classes (slot ∷ slots) (here, later) = (
  All-map (λ item. (is_capable_plan item ≡ false) × IsBehind classes item) (λ item h. h.0) slot
      here,
  slots_others (drop 1 classes) slots later,
)

-- What follows a plan of a slot may follow it.
MayFollow-classes :
    (item : RankedPlan) (capable : List RankedPlan)
    → IsBehind (map viability_group capable) item
    → All (MayFollow item) capable
MayFollow-classes item [] h = tt
MayFollow-classes item (other ∷ capable) (here, later) =
    (λ weak strong. here, MayFollow-classes item capable later)

MayFollow-other : (item later : RankedPlan) → is_capable_plan later ≡ false → MayFollow item later
MayFollow-other item later other weak strong = absurd (ground arith)

MayFollow-capable : (item later : RankedPlan) → is_capable_plan item ≡ true → MayFollow item later
MayFollow-capable item later strong weak = absurd (ground arith)

merged-MayFollow :
    (item : RankedPlan) (capable : List RankedPlan) (slots : List (List RankedPlan))
    → IsBehind (map viability_group capable) item
    → All (All IsOther) slots
    → All (MayFollow item) (merged capable slots)
merged-MayFollow item capable slots behind others =
    merged-All (MayFollow item) capable slots (MayFollow-classes item capable behind)
      (All-map (All IsOther) (λ slot h. All-map IsOther (MayFollow-other item) slot h) slots others)

slot-Pairwise : (slot : List RankedPlan) → All IsOther slot → Pairwise MayFollow slot
slot-Pairwise [] h = tt
slot-Pairwise (item ∷ slot) (here, later) =
    (All-map IsOther (MayFollow-other item) slot later, slot-Pairwise slot later)

pub merged-Pairwise :
    (capable : List RankedPlan) (slots : List (List RankedPlan))
    → All IsCapable capable
    → IsPlaced (map viability_group capable) slots
    → Pairwise MayFollow (merged capable slots)
unfolding merged interleave
merged-Pairwise [] [] h placed = tt
merged-Pairwise [] (slot ∷ slots) h (here, later) =
    rw (append-nil slot) (slot-Pairwise slot (All-map _ (λ item h. h.0) slot here))
merged-Pairwise (item ∷ capable) [] (strong, h) placed = (
  All-of (MayFollow item) (λ other. MayFollow-capable item other strong) _,
  merged-Pairwise capable [] h tt,
)
merged-Pairwise (item ∷ capable) (slot ∷ slots) (strong, h) (here, later) =
    let others = slots_others _ slots later in
    rw (interleave-merged item capable slots) (
      Pairwise-append MayFollow slot (item ∷ merged capable slots)
        (slot-Pairwise slot (All-map _ (λ other h. h.0) slot here))
        (
          All-of (MayFollow item) (λ other. MayFollow-capable item other strong) _,
          merged-Pairwise capable slots h later,
        )
        (All-map _
          (λ other h'.
            let (first, behind) = h'.1 in
            (λ weak capable_here. first, merged-MayFollow other capable slots behind others))
          slot here))

-- The capable plans of the merged list are the given ones, in their order.
pub keep-merged :
    (capable : List RankedPlan) (slots : List (List RankedPlan))
    → All IsCapable capable
    → All (All IsOther) slots
    → keep is_capable_plan (merged capable slots) ≡ capable
unfolding merged interleave
keep-merged [] [] h others = refl
keep-merged [] (slot ∷ slots) h (here, later) =
    rw (append-nil slot) (keep-none is_capable_plan slot here)
keep-merged (item ∷ capable) [] (strong, h) others =
    rw (strong) (ap (λ xs. item ∷ xs) (keep-merged capable [] h tt))
keep-merged (item ∷ capable) (slot ∷ slots) (strong, h) (here, later) =
    rw (interleave-merged item capable slots) (
      keep-append is_capable_plan slot (item ∷ merged capable slots)
      ∙ rw (keep-none is_capable_plan slot here, strong)
          (ap (λ xs. item ∷ xs) (keep-merged capable slots h later)))
