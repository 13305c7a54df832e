-- ===== src/Plans/Weak/Slots.antt =====
-- What the slots hold: each plan without known capability once, in a slot behind all capable plans
-- that are at least as viable.
use mathlib.Core.List.{Permᴰ, append_assoc, append-nil}
use mathlib.Core.List.Permᴰ as Perm
use jaull.Base.{
  ℕ, zero, suc, ◌+◌, ◌≤◌, ◌<◌, ◌≡◌, refl, ap, ◌∙◌, Bool, true, false, ltb, not, inl, inr, List, [],
  ◌∷◌, ◌++◌, keep, drop, length, All, All-append, max, arith, Bool-cases, if◌then◌else◌,
}
use jaull.Plans.{RankedPlan}
use jaull.Plans.Weak.{
  Viability, viability_group, at_least_as_viable, is_capable_plan, anchor, append_at, empty_slots,
  fill_slots,
}

abbrev pub joined : List (List RankedPlan) → List RankedPlan
joined [] = []
joined (slot ∷ slots) = slot ++ joined slots

-- No class of the list is at least as viable as the plan's.
abbrev pub IsBehind : List Viability → RankedPlan → Type 0
IsBehind classes item =
    All (λ other. at_least_as_viable other (viability_group item) ≡ false) classes

-- The plans of every slot are not capable, and behind what they have to be behind.
abbrev pub IsPlaced : List Viability → List (List RankedPlan) → Type 0
IsPlaced classes [] = Unit
IsPlaced classes (slot ∷ slots) =
    All (λ item. (is_capable_plan item ≡ false) × IsBehind classes item) slot
    × IsPlaced (drop 1 classes) slots

pub length-append_at :
    (index : ℕ) (item : RankedPlan) (slots : List (List RankedPlan))
    → length (append_at index item slots) ≡ length slots
unfolding append_at
length-append_at index item [] = refl
length-append_at zero item (slot ∷ slots) = refl
length-append_at (suc index) item (slot ∷ slots) = ap suc (length-append_at index item slots)

append_at-Permᴰ :
    (index : ℕ) (item : RankedPlan) (slots : List (List RankedPlan))
    → index < length slots
    → Permᴰ (item ∷ joined slots) (joined (append_at index item slots))
unfolding append_at
append_at-Permᴰ index item [] h = absurd (omega arith)
append_at-Permᴰ zero item (slot ∷ slots) h =
    rw (append_assoc slot (item ∷ []) (joined slots))
      (Perm.symm (Perm.middle item slot (joined slots)))
append_at-Permᴰ (suc index) item (slot ∷ slots) h =
    Permᴰ.trans (Perm.symm (Perm.middle item slot (joined slots)))
      (Perm.append_left slot (append_at-Permᴰ index item slots (omega arith)))

anchor_later :
    (later index : ℕ) (b : Bool)
    → (if ltb 0 later then suc later else if b then 1 else 0) ≤ suc index
    → later ≤ index
anchor_later later index b h = ground arith

anchor_nowhere :
    (later : ℕ) (b : Bool)
    → (if ltb 0 later then suc later else if b then 1 else 0) ≤ 0
    → (later ≤ 0) × (b ≡ false)
anchor_nowhere later true h = absurd (ground arith)
anchor_nowhere later false h = (ground arith, refl)

-- The anchor is behind the last class that is at least as viable.
drop-anchor :
    (item : RankedPlan) (classes : List Viability) (index : ℕ)
    → anchor (viability_group item) classes ≤ index
    → IsBehind (drop index classes) item
unfolding anchor
drop-anchor item [] zero h = tt
drop-anchor item [] (suc index) h = tt
drop-anchor item (other ∷ classes) zero h =
    let (later, here) =
      anchor_nowhere (anchor (viability_group item) classes)
        (at_least_as_viable other (viability_group item)) h in
    (here, drop-anchor item classes zero later)
drop-anchor item (other ∷ classes) (suc index) h = drop-anchor item classes index (
    anchor_later (anchor (viability_group item) classes) index
      (at_least_as_viable other (viability_group item)) h)

drop-drop_one :
    (index : ℕ) (classes : List Viability) → drop index (drop 1 classes) ≡ drop (suc index) classes
drop-drop_one zero [] = refl
drop-drop_one (suc index) [] = refl
drop-drop_one index (other ∷ classes) = refl

append_at-IsPlaced :
    (index : ℕ) (item : RankedPlan) (classes : List Viability) (slots : List (List RankedPlan))
    → is_capable_plan item ≡ false
    → IsBehind (drop index classes) item
    → IsPlaced classes slots
    → IsPlaced classes (append_at index item slots)
unfolding append_at
append_at-IsPlaced index item classes [] weak behind placed = placed
append_at-IsPlaced zero item classes (slot ∷ slots) weak behind (here, later) =
    (All-append _ slot (item ∷ []) here ((weak, behind), tt), later)
append_at-IsPlaced (suc index) item classes (slot ∷ slots) weak behind (here, later) = (
  here,
  append_at-IsPlaced index item (drop 1 classes) slots weak
      (rw (drop-drop_one index classes) behind) later,
)

pub empty_slots-IsPlaced : (classes : List Viability) (n : ℕ) → IsPlaced classes (empty_slots n)
unfolding empty_slots
empty_slots-IsPlaced classes zero = tt
empty_slots-IsPlaced classes (suc n) = (tt, empty_slots-IsPlaced (drop 1 classes) n)

pub fill_slots-IsPlaced :
    (classes : List Viability) (items : List RankedPlan) (seen_capable : ℕ)
    (slots : List (List RankedPlan))
    → IsPlaced classes slots
    → IsPlaced classes (fill_slots classes items seen_capable slots)
unfolding fill_slots
fill_slots-IsPlaced classes [] seen_capable slots placed = placed
fill_slots-IsPlaced classes (item ∷ items) seen_capable slots placed =
    elim (Bool-cases (is_capable_plan item)) [
      | inl capable ↦
          rw (capable) (fill_slots-IsPlaced classes items (suc seen_capable) slots placed)
      | inr weak ↦
          let index = max seen_capable (anchor (viability_group item) classes) in
          rw (weak) (
            fill_slots-IsPlaced classes items seen_capable (append_at index item slots) (
              append_at-IsPlaced index item classes slots weak
                (drop-anchor item classes index (ground arith)) placed))
    ]

one_later :
    (later n : ℕ) (b : Bool)
    → later ≤ n
    → (if ltb 0 later then suc later else if b then 1 else 0) ≤ suc n
one_later later n true h = ground arith
one_later later n false h = ground arith

pub anchor_bound :
    (own : Viability) (classes : List Viability) → anchor own classes ≤ length classes
unfolding anchor
anchor_bound own [] = omega arith
anchor_bound own (other ∷ classes) =
    one_later (anchor own classes) (length classes) (at_least_as_viable other own)
      (anchor_bound own classes)

abbrev pub is_other : RankedPlan → Bool
is_other item = not (is_capable_plan item)

-- Each plan without known capability is put into one slot, and nothing else is.
pub fill_slots-Permᴰ :
    (classes : List Viability) (items : List RankedPlan) (seen_capable : ℕ)
    (slots : List (List RankedPlan))
    → seen_capable + length (keep is_capable_plan items) ≤ length classes
    → length classes < length slots
    → Permᴰ
        (joined slots ++ keep is_other items)
        (joined (fill_slots classes items seen_capable slots))
unfolding fill_slots
fill_slots-Permᴰ classes [] seen_capable slots h h' = rw (append-nil (joined slots)) (Perm.refl _)
fill_slots-Permᴰ classes (item ∷ items) seen_capable slots h h' =
    elim (Bool-cases (is_capable_plan item)) [
      | inl capable ↦
          let fits = rw (capable) at h in
          rw (capable) (fill_slots-Permᴰ classes items (suc seen_capable) slots (omega arith) h')
      | inr weak ↦
          let index = max seen_capable (anchor (viability_group item) classes) in
          let bound = anchor_bound (viability_group item) classes in
          let fits = rw (weak) at h in
          rw (weak) (
            Permᴰ.trans (Perm.middle item (joined slots) (keep is_other items)) (
              Permᴰ.trans
                (Perm.append_right (keep is_other items)
                  (append_at-Permᴰ index item slots (ground (arith, bound, fits))))
                (fill_slots-Permᴰ classes items seen_capable (append_at index item slots) fits
                  (rw (length-append_at index item slots) h'))))
    ]

pub length-fill_slots :
    (classes : List Viability) (items : List RankedPlan) (seen_capable : ℕ)
    (slots : List (List RankedPlan))
    → length (fill_slots classes items seen_capable slots) ≡ length slots
unfolding fill_slots
length-fill_slots classes [] seen_capable slots = refl
length-fill_slots classes (item ∷ items) seen_capable slots =
    elim (Bool-cases (is_capable_plan item)) [
      | inl capable ↦ rw (capable) (length-fill_slots classes items (suc seen_capable) slots)
      | inr weak ↦
          let index = max seen_capable (anchor (viability_group item) classes) in
          rw (weak) (
            length-fill_slots classes items seen_capable (append_at index item slots)
            ∙ length-append_at index item slots)
    ]
