-- ===== src/Plans/Weak/Held.antt =====
-- The slot that holds a plan.
use mathlib.Core.List.{Memᴰ}
use jaull.Base.{
  ℕ, zero, suc, ◌+◌, ◌≤◌, ◌<◌, ◌≡◌, refl, true, false, inl, inr, List, [], ◌∷◌, ◌++◌, keep, length,
  max, arith, Bool-cases, Mem-append_left, Mem-append_right,
}
use jaull.Plans.{RankedPlan}
use jaull.Plans.Weak.{Viability, viability_group, is_capable_plan, anchor, append_at, fill_slots}
use jaull.Plans.Weak.Slots.{anchor_bound, length-append_at}

-- The slot at the index holds the plan.
abbrev pub HasAt : ℕ → RankedPlan → List (List RankedPlan) → Type 0
HasAt index item [] = ⊥
HasAt zero item (slot ∷ slots) = Memᴰ item slot
HasAt (suc index) item (slot ∷ slots) = HasAt index item slots

append_at-HasAt :
    (index : ℕ) (item : RankedPlan) (slots : List (List RankedPlan))
    → index < length slots
    → HasAt index item (append_at index item slots)
unfolding append_at
append_at-HasAt index item [] h = absurd (omega arith)
append_at-HasAt zero item (slot ∷ slots) h = Mem-append_right slot (Memᴰ.head refl)
append_at-HasAt (suc index) item (slot ∷ slots) h = append_at-HasAt index item slots (omega arith)

append_at-keeps :
    (index : ℕ) (other : RankedPlan) (at : ℕ) (item : RankedPlan) (slots : List (List RankedPlan))
    → HasAt at item slots
    → HasAt at item (append_at index other slots)
unfolding append_at
append_at-keeps index other at item [] h = h
append_at-keeps zero other zero item (slot ∷ slots) h = Mem-append_left (other ∷ []) h
append_at-keeps zero other (suc at) item (slot ∷ slots) h = h
append_at-keeps (suc index) other zero item (slot ∷ slots) h = h
append_at-keeps (suc index) other (suc at) item (slot ∷ slots) h =
    append_at-keeps index other at item slots h

fill_slots-keeps :
    (classes : List Viability) (items : List RankedPlan) (seen_capable : ℕ)
    (slots : List (List RankedPlan)) (at : ℕ) (item : RankedPlan)
    → HasAt at item slots
    → HasAt at item (fill_slots classes items seen_capable slots)
unfolding fill_slots
fill_slots-keeps classes [] seen_capable slots at item h = h
fill_slots-keeps classes (other ∷ items) seen_capable slots at item h =
    elim (Bool-cases (is_capable_plan other)) [
      | inl capable ↦
          rw (capable) (fill_slots-keeps classes items (suc seen_capable) slots at item h)
      | inr weak ↦
          let index = max seen_capable (anchor (viability_group other) classes) in
          rw (weak) (
            fill_slots-keeps classes items seen_capable (append_at index other slots) at item
              (append_at-keeps index other at item slots h))
    ]

fill_slots_capable :
    (classes : List Viability) (item : RankedPlan) (items : List RankedPlan) (seen_capable : ℕ)
    (slots : List (List RankedPlan))
    → is_capable_plan item ≡ true
    → fill_slots classes (item ∷ items) seen_capable slots
      ≡ fill_slots classes items (suc seen_capable) slots
unfolding fill_slots
fill_slots_capable classes item items seen_capable slots capable = rw (capable) refl

fill_slots_other :
    (classes : List Viability) (item : RankedPlan) (items : List RankedPlan) (seen_capable : ℕ)
    (slots : List (List RankedPlan))
    → is_capable_plan item ≡ false
    → fill_slots classes (item ∷ items) seen_capable slots
      ≡ fill_slots classes items seen_capable
          (append_at (max seen_capable (anchor (viability_group item) classes)) item slots)
unfolding fill_slots
fill_slots_other classes item items seen_capable slots other = rw (other) refl

counts :
    (item : RankedPlan) (items : List RankedPlan)
    → is_capable_plan item ≡ true
    → length (keep is_capable_plan (item ∷ items)) ≡ suc (length (keep is_capable_plan items))
counts item items capable = rw (capable) refl

-- A plan is put behind the capable ones that were seen before it.
pub fill_slots-HasAt :
    (classes : List Viability) (before : List RankedPlan) (item : RankedPlan)
    (after : List RankedPlan) (seen_capable : ℕ) (slots : List (List RankedPlan))
    → is_capable_plan item ≡ false
    → seen_capable + length (keep is_capable_plan before) ≤ length classes
    → length classes < length slots
    → (index : ℕ) × (seen_capable + length (keep is_capable_plan before) ≤ index)
      × (index ≤ length classes)
      × HasAt index item (fill_slots classes (before ++ item ∷ after) seen_capable slots)
fill_slots-HasAt classes [] item after seen_capable slots other h h' =
    let index = max seen_capable (anchor (viability_group item) classes) in
    let bound = anchor_bound (viability_group item) classes in
    (
      index,
      ground arith,
      ground (arith, bound),
      rw (fill_slots_other classes item after seen_capable slots other, HasAt)
          (fill_slots-keeps classes after seen_capable (append_at index item slots) index item
            (append_at-HasAt index item slots (ground (arith, bound)))),
    )
fill_slots-HasAt classes (first ∷ before) item after seen_capable slots other h h' =
    elim (Bool-cases (is_capable_plan first)) [
      | inl capable ↦
          let count = counts first before capable in
          let (index, least, most, has) =
            fill_slots-HasAt classes before item after (suc seen_capable) slots other
              (omega (arith, count)) h' in
          (
            index,
            omega (arith, count, least),
            most,
            rw
                (fill_slots_capable classes first (before ++ item ∷ after) seen_capable slots
                  capable)
                has,
          )
      | inr weak ↦
          let index' = max seen_capable (anchor (viability_group first) classes) in
          let (index, least, most, has) =
            fill_slots-HasAt classes before item after seen_capable (append_at index' first slots)
              other (rw (weak) at h) (rw (length-append_at index' first slots) h') in
          (
            index,
            rw (weak) least,
            most,
            rw (fill_slots_other classes first (before ++ item ∷ after) seen_capable slots weak)
                has,
          )
    ]
