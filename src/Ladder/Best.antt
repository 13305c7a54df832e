-- ===== src/Ladder/Best.antt =====
-- The ladder settles on a configuration whose status nothing on it improves.
use mathlib.Core.List.{Memᴰ}
use jaull.Base.{
  ℕ, ◌≤◌, ◌≡◌, ◌≢◌, String, Bool, true, false, Option, none, some, List, [], ◌∷◌, map, arith, refl,
  sym, ap, ◌∙◌, Bool-cases, Option-cases, inl, inr, ◌⊎◌, Mem-map, is_some,
}
use jaull.Hardware.{HardwareProfile}
use jaull.Estimation.{CompatibilityStatus}
use jaull.Ladder.{
  RecommendationPriority, UserRequirements, EstimateFn, Tried, tried_status, is_acceptable,
  is_offloading, is_unknown, first_with, fallback_option,
}
use jaull.Ladder.Gguf.{
  Rung, climb, choose_gguf, select_gguf, is_put_aside, or_first, rung_of, ordered_rungs, try_rung,
}

-- How far a status is from running in one pool: it does, it would with offloading, it is not known to,
-- it does not.
abbrev pub distance : CompatibilityStatus → ℕ
distance CompatibilityStatus.offloading_required = 1
distance CompatibilityStatus.unknown = 2
distance CompatibilityStatus.insufficient = 3
distance _ = 0

first_with-none :
    (p : CompatibilityStatus → Bool) (options : List Tried) {tried : Tried}
    → first_with p options ≡ none
    → Memᴰ tried options
    → p (tried_status tried) ≡ false
unfolding first_with
first_with-none p [] e t = elim t [ ]
first_with-none p (x ∷ options) e (Memᴰ.head same) = rw (same) (ground arith)
first_with-none p (x ∷ options) e (Memᴰ.tail t) = first_with-none p options (ground arith) t

first_with-some :
    (p : CompatibilityStatus → Bool) (options : List Tried) {tried : Tried}
    → first_with p options ≡ some tried
    → p (tried_status tried) ≡ true
unfolding first_with
first_with-some p [] e = cc
first_with-some p (x ∷ options) {tried} e = elim (Bool-cases (p (tried_status x))) [
  | inl here ↦ let same : x ≡ tried = ground arith in rw (← same) here
  | inr later ↦ first_with-some p options {tried = tried} (ground arith)
]

offloading_first :
    (s s' : CompatibilityStatus)
    → is_offloading s ≡ true
    → is_acceptable s' ≡ false
    → distance s ≤ distance s'
unfolding is_acceptable
offloading_first s s' h out = ground arith

unknown_second :
    (s s' : CompatibilityStatus)
    → is_unknown s ≡ true
    → is_acceptable s' ≡ false
    → is_offloading s' ≡ false
    → distance s ≤ distance s'
unfolding is_acceptable
unknown_second s s' h out far = ground arith

insufficient_last :
    (s s' : CompatibilityStatus)
    → is_acceptable s' ≡ false
    → is_offloading s' ≡ false
    → is_unknown s' ≡ false
    → distance s ≤ distance s'
unfolding is_acceptable
insufficient_last s s' out far farther = ground arith

-- Among options that do not fit one pool, the fallback is the closest.
pub fallback_option-closest :
    (options : List Tried) {chosen tried : Tried}
    → fallback_option options ≡ some chosen
    → Memᴰ tried options
    → is_acceptable (tried_status tried) ≡ false
    → distance (tried_status chosen) ≤ distance (tried_status tried)
unfolding fallback_option
fallback_option-closest options {chosen} {tried} e t out =
    elim (Option-cases (first_with is_offloading options)) [
      | inr (a, found) ↦
          let near = first_with-some is_offloading options found in
          let same : a ≡ chosen = ground arith in
          offloading_first (tried_status chosen) (tried_status tried) (rw (← same) near) out
      | inl no_offload ↦
          let far = first_with-none is_offloading options no_offload t in
          elim (Option-cases (first_with is_unknown options)) [
            | inr (a, found) ↦
                let near = first_with-some is_unknown options found in
                let same : a ≡ chosen = ground arith in
                unknown_second (tried_status chosen) (tried_status tried) (rw (← same) near) out far
            | inl no_unknown ↦
                let farther = first_with-none is_unknown options no_unknown t in
                insufficient_last (tried_status chosen) (tried_status tried) out far farther
          ]
    ]

pub acceptable-distance : (s : CompatibilityStatus) → is_acceptable s ≡ true → distance s ≡ 0
unfolding is_acceptable
acceptable-distance s h = ground arith

module _ (try : Rung → Tried) (priority : RecommendationPriority) where
  -- What is put aside fits.
  abbrev Fits : Option (Rung × Tried) → Type 0
  Fits none = Unit
  Fits (some (rung, tried)) = is_acceptable (tried_status tried) ≡ true

  or_first-Fits :
      (aside : Option (Rung × Tried)) (rung : Rung) (tried : Tried)
      → Fits aside
      → is_acceptable (tried_status tried) ≡ true
      → Fits (or_first aside (rung, tried))
  or_first-Fits none rung tried fits h = h
  or_first-Fits (some _) rung tried fits h = fits

  or_first-some : (aside : Option (Rung × Tried)) (pair : Rung × Tried) → or_first aside pair ≢ none
  or_first-some none pair e = cc
  or_first-some (some _) pair e = cc

  none_of :
      (rung : Rung) (rungs : List Rung)
      → is_acceptable (tried_status (try rung)) ≡ false
      → ((r : Rung) → Memᴰ r rungs → is_acceptable (tried_status (try r)) ≡ false)
      → (r : Rung) → Memᴰ r (rung ∷ rungs)
      → is_acceptable (tried_status (try r)) ≡ false
  none_of rung rungs out others r (Memᴰ.head e) =
      ap (λ x. is_acceptable (tried_status (try x))) e ∙ out
  none_of rung rungs out others r (Memᴰ.tail t) = others r t

  -- The loop stops at a rung that fits, or none fits and all were tried.
  climb_outcome :
      (rungs : List Rung) (aside : Option (Rung × Tried))
      → Fits aside
      → ((rung : Rung) × (tried : Tried) × ((climb try priority rungs aside).chosen
            ≡ some (rung, tried))
          × (is_acceptable (tried_status tried) ≡ true))
        ⊎ ((climb try priority rungs aside).chosen ≡ none)
          × ((climb try priority rungs aside).options ≡ map try rungs)
          × (aside ≡ none)
          × ((rung : Rung) → Memᴰ rung rungs → is_acceptable (tried_status (try rung)) ≡ false)
  unfolding climb
  climb_outcome [] none fits = inr (refl, refl, refl, λ rung t. elim t [ ])
  climb_outcome [] (some (rung, tried)) fits = inl (rung, tried, refl, fits)
  climb_outcome (rung ∷ rungs) aside fits =
      elim (Bool-cases (is_acceptable (tried_status (try rung)))) [
        | inr out ↦ elim (climb_outcome rungs aside fits) [
          | inl (r, tried, e, good) ↦ inl (r, tried, rw (out) e, good)
          | inr (nothing, all, empty, none_fit) ↦ inr (
            rw (out) nothing,
            rw (out) (ap (λ rest. try rung ∷ rest) all),
            empty,
            none_of rung rungs out none_fit,
          )
        ]
        | inl good ↦ elim (Bool-cases (is_put_aside priority (is_some aside) rung (try rung))) [
          | inr here ↦ inl (rung, try rung, rw (good, here) refl, good)
          | inl later ↦
              elim (climb_outcome rungs (or_first aside (rung, try rung))
                (or_first-Fits aside rung (try rung) fits good)) [
                  | inl (r, tried, e, fine) ↦ inl (r, tried, rw (good, later) e, fine)
                  | inr (nothing, all, empty, none_fit) ↦
                      absurd (or_first-some aside (rung, try rung) empty)
                ]
        ]
      ]

  climb_closest :
      (rungs : List Rung) {chosen : Tried} {rung : Rung}
      → choose_gguf (climb try priority rungs none) ≡ some chosen
      → Memᴰ rung rungs
      → distance (tried_status chosen) ≤ distance (tried_status (try rung))
  unfolding choose_gguf
  climb_closest rungs {chosen} {rung} e t = elim (climb_outcome rungs none tt) [
    | inl (r, tried, found, good) ↦
        let same : tried ≡ chosen = ground arith in
        let zero_away = acceptable-distance (tried_status tried) good in
        rw (← same) (omega (arith, zero_away))
    | inr (nothing, all, _, none_fit) ↦
        let fallback : fallback_option (map try rungs) ≡ some chosen =
          ap fallback_option (sym all) ∙ (rw (nothing) at e) in
        fallback_option-closest (map try rungs) fallback (Mem-map try rungs t refl)
          (none_fit rung t)
  ]

-- No rung of the ladder has a status closer to running in one pool than the chosen configuration's:
-- fitting one pool is closest, then needing offloading, then unknown, then insufficient.
pub select_gguf_closest :
    (estimate_fn : EstimateFn) (requirements : UserRequirements) (hardware : Option HardwareProfile)
    (quantizations : List String) {chosen : Tried} {rung : Rung}
    → select_gguf estimate_fn requirements hardware quantizations ≡ some chosen
    → Memᴰ rung (ordered_rungs requirements.priority (map rung_of quantizations))
    → distance (tried_status chosen)
      ≤ distance (tried_status (try_rung estimate_fn requirements hardware rung))
unfolding select_gguf
select_gguf_closest estimate_fn requirements hardware quantizations e t =
    climb_closest (try_rung estimate_fn requirements hardware) requirements.priority
      (ordered_rungs requirements.priority (map rung_of quantizations)) e t
