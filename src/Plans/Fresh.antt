-- ===== src/Plans/Fresh.antt =====
-- The buckets are of different models.
use mathlib.Core.List.{Memᴰ}
use jaull.Base.{
  ℕ, suc, ◌≤◌, ◌<◌, ◌≡◌, refl, sym, Bool, true, false, inl, inr, ◌||◌, List, [], ◌∷◌, any,
  same_codes, same_codes-eq, same_codes_refl, All, All-map, Pairwise, arith, Bool-cases, ◌==◌,
  and_cases, not-true,
}
use jaull.Plans.{RankedPlan, rejected}
use jaull.Plans.Diverse.{IdentityBucket, identity_key, bucket_of, opens, best_plans, remove}

-- Plans of different models.
abbrev pub AreDifferent : RankedPlan → RankedPlan → Type 0
AreDifferent a b = same_codes (identity_key a) (identity_key b) ≡ false

clash : (a b : List ℕ) → a ≡ b → same_codes a b ≡ false → ⊥
clash a b e h = let same = same_codes_refl b in absurd (ground (arith, same, rw (e) at h))

AreDifferent-sym : (a b : RankedPlan) → AreDifferent a b → AreDifferent b a
AreDifferent-sym a b h = elim (Bool-cases (same_codes (identity_key b) (identity_key a))) [
  | inl same ↦ absurd (
      clash (identity_key a) (identity_key b)
        (sym (same_codes-eq (identity_key b) (identity_key a) same)) h)
  | inr other ↦ other
]

-- Two buckets of different models, in the order of their indexes.
abbrev pub InOrder : IdentityBucket → IdentityBucket → Type 0
InOrder a b = AreDifferent a.primary b.primary × (a.original_index < b.original_index)

or_false : (a b : Bool) → (a || b) ≡ false → (a ≡ false) × (b ≡ false)
or_false true b h = cc
or_false false b h = (refl, h)

abbrev is_seen : List (List ℕ) → RankedPlan → Bool
is_seen seen item = any (λ key. same_codes key (identity_key item)) seen

-- The bucket is of a plan that is not rejected, of a model that has none yet, from the index on.
abbrev pub IsFresh : List (List ℕ) → ℕ → IdentityBucket → Type 0
IsFresh seen index bucket =
    (is_seen seen bucket.primary ≡ false)
    × (index ≤ bucket.original_index)
    × (rejected bucket.primary.assessment ≡ false)

opens_cases :
    (seen : List (List ℕ)) (item : RankedPlan)
    → opens seen item ≡ true
    → (is_seen seen item ≡ false) × (rejected item.assessment ≡ false)
unfolding opens
opens_cases seen item h = let (kept, fresh) = and_cases _ _ h in (not-true _ fresh, not-true _ kept)

pub best_plans-IsFresh :
    (plans : List RankedPlan) (seen : List (List ℕ)) (index : ℕ) (items : List RankedPlan)
    → All (IsFresh seen index) (best_plans plans seen index items)
unfolding best_plans bucket_of
best_plans-IsFresh plans seen index [] = tt
best_plans-IsFresh plans seen index (item ∷ items) = elim (Bool-cases (opens seen item)) [
  | inl fresh ↦
      let (new, kept) = opens_cases seen item fresh in
      rw (fresh) (
        (new, omega arith, kept),
        All-map (IsFresh (identity_key item ∷ seen) (suc index))
            (λ b h. ((or_false _ _ h.0).1, omega (arith, h.1), h.2))
            (best_plans plans (identity_key item ∷ seen) (suc index) items)
            (best_plans-IsFresh plans (identity_key item ∷ seen) (suc index) items),
      )
  | inr other ↦ rw (other) (
      All-map (IsFresh seen (suc index)) (λ b h. (h.0, omega (arith, h.1), h.2))
        (best_plans plans seen (suc index) items) (best_plans-IsFresh plans seen (suc index) items))
]

pub best_plans-InOrder :
    (plans : List RankedPlan) (seen : List (List ℕ)) (index : ℕ) (items : List RankedPlan)
    → Pairwise InOrder (best_plans plans seen index items)
unfolding best_plans bucket_of
best_plans-InOrder plans seen index [] = tt
best_plans-InOrder plans seen index (item ∷ items) = elim (Bool-cases (opens seen item)) [
  | inl fresh ↦ rw (fresh) (
    All-map (IsFresh (identity_key item ∷ seen) (suc index))
        (λ b h. ((or_false _ _ h.0).0, omega (arith, h.1)))
        (best_plans plans (identity_key item ∷ seen) (suc index) items)
        (best_plans-IsFresh plans (identity_key item ∷ seen) (suc index) items),
    best_plans-InOrder plans (identity_key item ∷ seen) (suc index) items,
  )
  | inr other ↦ rw (other) (best_plans-InOrder plans seen (suc index) items)
]

All-Mem {κ} :
    (P : IdentityBucket → Type κ) (buckets : List IdentityBucket) {b : IdentityBucket}
    → All P buckets
    → Memᴰ b buckets
    → P b
All-Mem P [] h t = elim t [ ]
All-Mem P (x ∷ buckets) (here, later) (Memᴰ.head e) = rw (e) here
All-Mem P (x ∷ buckets) (here, later) (Memᴰ.tail t) = All-Mem P buckets later t

pub members : (buckets : List IdentityBucket) → All (λ b. Memᴰ b buckets) buckets
members [] = tt
members (x ∷ buckets) =
    (Memᴰ.head refl, All-map (λ b. Memᴰ b buckets) (λ b t. Memᴰ.tail t) buckets (members buckets))

same_index : (n : ℕ) → (n == n) ≡ true
same_index n = ground arith

other_index : (m n : ℕ) → m < n → (m == n) ≡ false
other_index m n h = ground arith

-- What is left after a bucket is removed is of other models.
pub remove-Different :
    (buckets : List IdentityBucket) (b : IdentityBucket)
    → Memᴰ b buckets
    → Pairwise InOrder buckets
    → All (λ other. AreDifferent b.primary other.primary) (remove b.original_index buckets)
unfolding remove
remove-Different [] b t h = elim t [ ]
remove-Different (x ∷ buckets) b (Memᴰ.head e) (here, later) =
    rw (e, same_index x.original_index) (All-map (InOrder x) (λ c h. h.0) buckets here)
remove-Different (x ∷ buckets) b (Memᴰ.tail t) (here, later) =
    let (different, less) = All-Mem (InOrder x) buckets here t in
    rw (other_index x.original_index b.original_index less)
      (AreDifferent-sym x.primary b.primary different, remove-Different buckets b t later)
