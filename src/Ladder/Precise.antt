-- ===== src/Ladder/Precise.antt =====
-- The precision ladder settles on the first supported precision that fits, or else the closest.
use mathlib.Core.List.{Memᴰ}
use jaull.Base.{
  ◌≤◌, ◌≡◌, String, Bool, true, false, not, ◌&&◌, Option, none, some, List, [], ◌∷◌, map, keep,
  arith, refl, sym, ap, ◌∙◌, ◌⊎◌, inl, inr, Bool-cases, Mem-map,
}
use jaull.Inference.{WeightPrecision}
use jaull.Service.{with_confidence}
use jaull.Hardware.{HardwareProfile}
use jaull.Ladder.{
  UserRequirements, EstimateFn, Tried, tried_status, is_acceptable, fallback_option,
  lower_theoretical_confidence,
}
use jaull.Ladder.Best.{distance, fallback_option-closest, acceptable-distance}
use jaull.Ladder.Transformers.{
  descend, settle, choose_transformers, is_theoretical_dtype, select_transformers, try_precision,
  is_limited, transformers_precision_options,
}

-- Lowering the confidence leaves the status.
settle_status :
    (precision : WeightPrecision) (tried : Tried)
    → tried_status (settle precision tried) ≡ tried_status tried
unfolding settle lower_theoretical_confidence with_confidence
settle_status precision tried = elim (Bool-cases (is_theoretical_dtype precision)) [
  | inl lowered ↦ rw (lowered) refl
  | inr kept ↦ rw (kept) refl
]

module _ (try : WeightPrecision → Tried) (limited : Bool) where
  -- The loop evaluates the precision.
  abbrev pub is_evaluated : WeightPrecision → Bool
  is_evaluated precision = not (is_theoretical_dtype precision && limited)

  none_of :
      (p : WeightPrecision) (ps : List WeightPrecision)
      → is_acceptable (tried_status (try p)) ≡ false
      → ((q : WeightPrecision) → Memᴰ q ps → is_acceptable (tried_status (try q)) ≡ false)
      → (q : WeightPrecision) → Memᴰ q (p ∷ ps)
      → is_acceptable (tried_status (try q)) ≡ false
  none_of p ps out others q (Memᴰ.head e) = ap (λ x. is_acceptable (tried_status (try x))) e ∙ out
  none_of p ps out others q (Memᴰ.tail t) = others q t

  -- Without packed weights, the loop stops at a precision that fits, or none fits and all that it
  -- evaluates were tried.
  descend_outcome :
      (precisions : List WeightPrecision)
      → ((tried : Tried) × ((descend try false limited precisions).chosen ≡ some tried)
          × (is_acceptable (tried_status tried) ≡ true))
        ⊎ ((descend try false limited precisions).chosen ≡ none)
          × ((descend try false limited precisions).options
              ≡ map try (keep is_evaluated precisions))
          × ((p : WeightPrecision)
              → Memᴰ p (keep is_evaluated precisions)
              → is_acceptable (tried_status (try p)) ≡ false)
  unfolding descend
  descend_outcome [] = inr (refl, refl, λ p t. elim t [ ])
  descend_outcome (p ∷ ps) = elim (Bool-cases (is_theoretical_dtype p && limited)) [
    | inl skipped ↦ rw (skipped) (descend_outcome ps)
    | inr evaluated ↦ elim (Bool-cases (is_acceptable (tried_status (try p)))) [
      | inl good ↦ inl (
        settle p (try p),
        rw (evaluated, good) refl,
        ap is_acceptable (settle_status p (try p)) ∙ good,
      )
      | inr out ↦ elim (descend_outcome ps) [
        | inl (tried, e, good) ↦ inl (tried, rw (evaluated, out) e, good)
        | inr (nothing, all, none_fit) ↦ inr (
          rw (evaluated, out) nothing,
          rw (evaluated, out) (ap (λ rest. try p ∷ rest) all),
          rw (evaluated) (none_of p (keep is_evaluated ps) out none_fit),
        )
      ]
    ]
  ]

  descend_closest :
      (precisions : List WeightPrecision) {chosen : Tried} {p : WeightPrecision}
      → choose_transformers (descend try false limited precisions) ≡ some chosen
      → Memᴰ p (keep is_evaluated precisions)
      → distance (tried_status chosen) ≤ distance (tried_status (try p))
  unfolding choose_transformers
  descend_closest precisions {chosen} {p} e t = elim (descend_outcome precisions) [
    | inl (tried, found, good) ↦
        let same : tried ≡ chosen = ground arith in
        let zero_away = acceptable-distance (tried_status tried) good in
        rw (← same) (omega (arith, zero_away))
    | inr (nothing, all, none_fit) ↦
        let fallback : fallback_option (map try (keep is_evaluated precisions)) ≡ some chosen =
          ap fallback_option (sym all) ∙ (rw (nothing) at e) in
        fallback_option-closest (map try (keep is_evaluated precisions)) fallback
          (Mem-map try (keep is_evaluated precisions) t refl) (none_fit p t)
  ]

-- For weights that are not packed, no precision that the ladder evaluates has a status closer to
-- running in one pool than the chosen configuration's.
pub select_transformers_closest :
    (estimate_fn : EstimateFn) (requirements : UserRequirements) (hardware : Option HardwareProfile)
    (torch_dtype : Option String) {chosen : Tried} {p : WeightPrecision}
    → select_transformers estimate_fn requirements hardware torch_dtype false ≡ some chosen
    → Memᴰ p (
        keep
          (is_evaluated
            (try_precision estimate_fn requirements (is_limited hardware))
            (is_limited hardware))
          (transformers_precision_options torch_dtype false))
    → distance (tried_status chosen)
      ≤ distance (tried_status (try_precision estimate_fn requirements (is_limited hardware) p))
unfolding select_transformers
select_transformers_closest estimate_fn requirements hardware torch_dtype e t =
    descend_closest (try_precision estimate_fn requirements (is_limited hardware))
      (is_limited hardware) (transformers_precision_options torch_dtype false) e t
