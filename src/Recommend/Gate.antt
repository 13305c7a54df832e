-- ===== src/Recommend/Gate.antt =====
-- The selection neither invents nor loses candidates, and leads with one that may lead.
use mathlib.Core.List.{Permᴰ}
use mathlib.Core.List.Permᴰ as Perm
use jaull.Base.{
  keep-Permᴰ, split-Permᴰ, any-Permᴰ, drop, IsCut, take-IsCut, take-drop, any-keep, ℕ, ◌≡◌, ◌≢◌,
  true, false, none, some, List, [], ◌∷◌, ◌++◌, keep, take, arith, refl, suc, ltb, Bool-cases,
  Option-cases, inl, inr, any,
}
use jaull.Estimation.{CompatibilityStatus}
use jaull.Recommend.{status_of, is_insufficient}
use jaull.Recommend.Order.{
  Scored, precedes, insert, sort_candidates, is_selectable, is_confirmed_pair, can_be_primary,
  status_rank, find_primary, promote_primary, grouped, select_ranked,
}

insert-Permᴰ : (x : Scored) (xs : List Scored) → Permᴰ (x ∷ xs) (insert x xs)
unfolding insert
insert-Permᴰ x [] = Perm.refl (x ∷ [])
insert-Permᴰ x (y ∷ ys) = elim (Bool-cases (precedes y x)) [
  | inl before ↦
      rw (before) (Permᴰ.trans (Permᴰ.swap refl refl) (Permᴰ.cons refl (insert-Permᴰ x ys)))
  | inr after ↦ rw (after) (Perm.refl (x ∷ y ∷ ys))
]

sort_candidates-Permᴰ : (xs : List Scored) → Permᴰ xs (sort_candidates xs)
unfolding sort_candidates
sort_candidates-Permᴰ [] = Permᴰ.nil
sort_candidates-Permᴰ (x ∷ xs) =
    Permᴰ.trans (Permᴰ.cons refl (sort_candidates-Permᴰ xs)) (insert-Permᴰ x (sort_candidates xs))

-- The pair that may lead is one of the pairs, and the others keep their order.
find_primary-Permᴰ :
    (pairs : List Scored) {primary : Scored} {others : List Scored}
    → find_primary pairs ≡ some (primary, others)
    → Permᴰ pairs (primary ∷ others) × (can_be_primary primary.candidate ≡ true)
unfolding find_primary
find_primary-Permᴰ [] e = cc
find_primary-Permᴰ (pair ∷ pairs) {primary} {others} e =
    elim (Bool-cases (can_be_primary pair.candidate)) [
      | inl leads ↦
          let same : pair ≡ primary = ground arith in
          let rest : pairs ≡ others = ground arith in
          (rw (← same, ← rest) (Perm.refl (pair ∷ pairs)), rw (← same) leads)
      | inr follows ↦ elim (Option-cases (find_primary pairs)) [
        | inl nothing ↦ absurd (ground arith)
        | inr ((first, later), found) ↦
            let (perm, leads) = find_primary-Permᴰ pairs found in
            let same : first ≡ primary = ground arith in
            let rest : pair ∷ later ≡ others = ground arith in
            (
              rw (← same, ← rest) (Permᴰ.trans (Permᴰ.cons refl perm) (Permᴰ.swap refl refl)),
              rw (← same) leads,
            )
      ]
    ]

find_primary-some :
    (pairs : List Scored)
    → any (λ pair. can_be_primary pair.candidate) pairs ≡ true
    → find_primary pairs ≢ none
unfolding find_primary
find_primary-some [] h e = cc
find_primary-some (pair ∷ pairs) h e = elim (Bool-cases (can_be_primary pair.candidate)) [
  | inl leads ↦ ground arith
  | inr follows ↦
      let later = find_primary-some pairs (rw (follows) at h) in
      elim (Option-cases (find_primary pairs)) [
        | inl nothing ↦ later nothing
        | inr ((first, others), found) ↦ absurd (ground arith)
      ]
]

promote_primary-Permᴰ : (pairs : List Scored) → Permᴰ pairs (promote_primary pairs)
unfolding promote_primary
promote_primary-Permᴰ pairs = elim (Option-cases (find_primary pairs)) [
  | inl nothing ↦ rw (nothing, promote_primary) (Perm.refl pairs)
  | inr ((primary, others), found) ↦
      let (perm, _) = find_primary-Permᴰ pairs found in rw (found, promote_primary) perm
]

grouped-Permᴰ : (evaluated : List Scored) → Permᴰ (keep is_selectable evaluated) (grouped evaluated)
unfolding grouped
grouped-Permᴰ evaluated =
    Permᴰ.trans (keep-Permᴰ is_selectable (sort_candidates-Permᴰ evaluated))
      (split-Permᴰ is_confirmed_pair (keep is_selectable (sort_candidates evaluated)))

-- The selection and what is cut off are together the selectable candidates, each as often as it was
-- evaluated, and something is cut off only when the selection is as long as the limit.
pub select_ranked-Permᴰ :
    (evaluated : List Scored) (limit : ℕ)
    → let selected = select_ranked evaluated limit in
      (cut : List Scored) × Permᴰ (keep is_selectable evaluated) (selected ++ cut)
      × IsCut (some limit) selected cut
unfolding select_ranked
select_ranked-Permᴰ evaluated limit =
    let promoted = promote_primary (grouped evaluated) in
    (
      drop limit promoted,
      rw (take-drop limit promoted)
          (Permᴰ.trans (grouped-Permᴰ evaluated) (promote_primary-Permᴰ (grouped evaluated))),
      take-IsCut limit promoted,
    )

within_primary :
    (status : CompatibilityStatus)
    → ltb (status_rank CompatibilityStatus.offloading_required) (status_rank status) ≡ false
    → is_insufficient status ≡ false
unfolding status_rank
within_primary status h = ground arith

primary-selectable :
    (pair : Scored) → can_be_primary pair.candidate ≡ true → is_selectable pair ≡ true
unfolding can_be_primary is_selectable status_rank
primary-selectable pair h =
    let fits = within_primary (status_of pair.candidate) (ground arith) in ground (arith, fits)

-- If any evaluated candidate may lead and the limit is not zero, the first of the selection may.
pub select_ranked_leads :
    (evaluated : List Scored) (limit : ℕ)
    → any (λ pair. can_be_primary pair.candidate) evaluated ≡ true
    → (first : Scored) × (rest : List Scored) × (select_ranked evaluated (suc limit) ≡ first ∷ rest)
      × (can_be_primary first.candidate ≡ true)
unfolding select_ranked promote_primary
select_ranked_leads evaluated limit h =
    let leads = λ (pair : Scored). can_be_primary pair.candidate in
    let some_lead : any leads (grouped evaluated) ≡ true =
      any-Permᴰ leads (grouped-Permᴰ evaluated)
        (any-keep is_selectable leads evaluated primary-selectable h) in
    elim (Option-cases (find_primary (grouped evaluated))) [
      | inl nothing ↦ absurd (find_primary-some (grouped evaluated) some_lead nothing)
      | inr ((primary, others), found) ↦
          let (_, lead) = find_primary-Permᴰ (grouped evaluated) found in
          (primary, take limit others, rw (found, select_ranked, promote_primary, take) refl, lead)
    ]
