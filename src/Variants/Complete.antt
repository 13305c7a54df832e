-- ===== src/Variants/Complete.antt =====
-- A selected variant is one of the repository's, and complete.
use mathlib.Core.List.{Memᴰ}
use jaull.Base.{
  ℕ, ◌≡◌, String, Bool, true, Option, none, some, List, [], ◌∷◌, keep, choose-Mem, arith, sym, ap,
  ◌∙◌, inl, inr, ◌⊎◌, Bool-cases, ◌-◌, ◌==◌, any,
}
use jaull.Model.{GgufVariant}
use jaull.Variants.{
  Selected, is_whole, whole_or, only, unique_gguf_representation, quantization_names,
  preferred_gguf_variants, or_refuse, resolve_matching, select_named, same_lowered, insert_variant,
  smaller_variant, sort_variants, get_elem?, select_median, select_default, select_variant,
  is_empty_text,
}

module _ {ℓ} {A : Type ℓ} where
  keep-Mem : (p : A → Bool) (xs : List A) {x : A} → Memᴰ x (keep p xs) → Memᴰ x xs × (p x ≡ true)
  keep-Mem p [] t = elim t [ ]
  keep-Mem p (y ∷ ys) t = elim (Bool-cases (p y)) [
    | inl kept ↦ elim (rw (kept) at t) [
      | Memᴰ.head e ↦ (Memᴰ.head e, ap p e ∙ kept)
      | Memᴰ.tail later ↦ let (mem, h) = keep-Mem p ys later in (Memᴰ.tail mem, h)
    ]
    | inr dropped ↦ let (mem, h) = keep-Mem p ys (rw (dropped) at t) in (Memᴰ.tail mem, h)
  ]

only-Mem : (vs : List GgufVariant) {v : GgufVariant} → only vs ≡ some v → Memᴰ v vs
unfolding only
only-Mem [] e = cc
only-Mem (x ∷ []) {v} e = let same : x ≡ v = ground arith in Memᴰ.head (sym same)
only-Mem (x ∷ y ∷ vs) e = cc

whole_or-Mem :
    (whole complete : List GgufVariant) {v : GgufVariant}
    → Memᴰ v (whole_or whole complete)
    → Memᴰ v whole ⊎ Memᴰ v complete
unfolding whole_or
whole_or-Mem [] complete t = inr t
whole_or-Mem (x ∷ whole) complete t = inl t

-- It is one of the variants, and complete.
pub record IsComplete (variants : List GgufVariant) (v : GgufVariant) : Type 0 where
  pub member : Memᴰ v variants
  pub complete : v.is_complete ≡ true

unique-IsComplete :
    (variants : List GgufVariant) {v : GgufVariant}
    → unique_gguf_representation variants ≡ some v
    → IsComplete variants v
unfolding unique_gguf_representation
unique-IsComplete variants {v} e =
    let complete = keep (λ (x : GgufVariant). x.is_complete) variants in
    let from : Memᴰ v complete =
      elim (whole_or-Mem (keep is_whole complete) complete (only-Mem _ e)) [
        | inl whole ↦ let (mem, _) = keep-Mem is_whole complete whole in mem
        | inr mem ↦ mem
      ] in
    let (mem, done) = keep-Mem (λ (x : GgufVariant). x.is_complete) variants from in
    record { member = mem; complete = done }

keep-IsComplete :
    (p : GgufVariant → Bool) (variants : List GgufVariant) {v : GgufVariant}
    → IsComplete (keep p variants) v
    → IsComplete variants v
keep-IsComplete p variants is =
    let (mem, _) = keep-Mem p variants is.member in record { member = mem; complete = is.complete }

preferred-IsComplete :
    (variants : List GgufVariant) {v : GgufVariant}
    → Memᴰ v (preferred_gguf_variants variants)
    → IsComplete variants v
unfolding preferred_gguf_variants
preferred-IsComplete variants t =
    let (name, _, e) = choose-Mem _ (quantization_names variants) t in
    keep-IsComplete _ variants (unique-IsComplete _ e)

insert_variant-Mem :
    (x : GgufVariant) (vs : List GgufVariant) {v : GgufVariant}
    → Memᴰ v (insert_variant x vs)
    → Memᴰ v (x ∷ vs)
unfolding insert_variant
insert_variant-Mem x [] t = t
insert_variant-Mem x (y ∷ vs) t = elim (Bool-cases (smaller_variant y x)) [
  | inl before ↦ elim (rw (before) at t) [
    | Memᴰ.head e ↦ Memᴰ.tail (Memᴰ.head e)
    | Memᴰ.tail later ↦ elim (insert_variant-Mem x vs later) [
      | Memᴰ.head e ↦ Memᴰ.head e
      | Memᴰ.tail mem ↦ Memᴰ.tail (Memᴰ.tail mem)
    ]
  ]
  | inr after ↦ rw (after) at t
]

sort_variants-Mem :
    (vs : List GgufVariant) {v : GgufVariant} → Memᴰ v (sort_variants vs) → Memᴰ v vs
unfolding sort_variants
sort_variants-Mem [] t = t
sort_variants-Mem (x ∷ vs) t = elim (insert_variant-Mem x (sort_variants vs) t) [
  | Memᴰ.head e ↦ Memᴰ.head e
  | Memᴰ.tail later ↦ Memᴰ.tail (sort_variants-Mem vs later)
]

get_elem?-Mem :
    (vs : List GgufVariant) (index : ℕ) {v : GgufVariant} → get_elem? vs index ≡ some v → Memᴰ v vs
unfolding get_elem?
get_elem?-Mem [] index e = cc
get_elem?-Mem (x ∷ vs) index {v} e = elim (Bool-cases (index == 0)) [
  | inl first ↦ let same : x ≡ v = ground arith in Memᴰ.head (sym same)
  | inr later ↦ Memᴰ.tail (get_elem?-Mem vs (index - 1) (rw (later) at e))
]

or_refuse_cases :
    (found : Option GgufVariant) {v : GgufVariant}
    → or_refuse found ≡ Selected.variant v
    → found ≡ some v
unfolding or_refuse
or_refuse_cases none e = cc
or_refuse_cases (some x) e = cc

resolve_matching-IsComplete :
    (matching : List GgufVariant) {v : GgufVariant}
    → resolve_matching matching ≡ Selected.variant v
    → IsComplete matching v
unfolding resolve_matching
resolve_matching-IsComplete [] e = cc
resolve_matching-IsComplete (x ∷ matching) e =
    unique-IsComplete (x ∷ matching) (or_refuse_cases _ e)

select_named-IsComplete :
    (variants : List GgufVariant) (name : String) {v : GgufVariant}
    → select_named variants name ≡ Selected.variant v
    → IsComplete variants v
unfolding select_named
select_named-IsComplete variants name e =
    keep-IsComplete _ variants (resolve_matching-IsComplete _ e)

select_median-IsComplete :
    (variants : List GgufVariant) {v : GgufVariant}
    → select_median variants ≡ Selected.variant v
    → IsComplete variants v
unfolding select_median
select_median-IsComplete variants e =
    preferred-IsComplete variants (sort_variants-Mem _ (get_elem?-Mem _ _ (or_refuse_cases _ e)))

select_default-IsComplete :
    (variants : List GgufVariant) {v : GgufVariant}
    → select_default variants ≡ Selected.variant v
    → IsComplete variants v
unfolding select_default
select_default-IsComplete variants e =
    elim (Bool-cases (any (λ (x : GgufVariant). same_lowered x.quantization "Q4_K_M") variants)) [
      | inl has ↦ select_named-IsComplete variants "Q4_K_M" (rw (has) at e)
      | inr lacks ↦ select_median-IsComplete variants (rw (lacks) at e)
    ]

-- Whatever quantization is asked for, or none, a variant that is selected is one of the
-- repository's variants and all of its parts are present.
pub select_variant-IsComplete :
    (variants : List GgufVariant) (requested : Option String) {v : GgufVariant}
    → select_variant variants requested ≡ Selected.variant v
    → IsComplete variants v
unfolding select_variant
select_variant-IsComplete [] requested e = cc
select_variant-IsComplete (x ∷ variants) none e = select_default-IsComplete (x ∷ variants) e
select_variant-IsComplete (x ∷ variants) (some name) e = elim (Bool-cases (is_empty_text name)) [
  | inl empty ↦ select_default-IsComplete (x ∷ variants) (rw (empty) at e)
  | inr asked ↦ select_named-IsComplete (x ∷ variants) name (rw (asked) at e)
]
