-- ===== src/Variants.antt =====
-- The choice of a GGUF variant: src/jaull/domain/gguf_variants.py and src/jaull/estimator/
-- gguf_selection.py. Quantization names are compared by their code points.
pub mod Complete
use jaull.Base.{
  ℕ, ◌/◌, ◌-◌, String, Bool, true, false, not, ◌&&◌, ◌||◌, Option, none, some, List, [], ◌∷◌, map,
  keep, any, choose, length, codes, lower_code, same_codes, or_number, is_some, ltb, leb, ◌==◌,
  if◌then◌else◌,
}
use jaull.Model.{GgufVariant}
use jaull.Recommend.Order.{codes_before}

-- `QuantizationNotFoundError` and `GgufVariantSelectionError`.
pub data SelectionError : Type 0 where
  quantization_not_found no_unambiguous_variant : SelectionError

pub data Selected : Type 0 where
  variant : GgufVariant → Selected
  refused : SelectionError → Selected

unfoldable pub is_whole : GgufVariant → Bool
is_whole v = (length v.files == 1) && not v.is_split

-- `whole or complete`
unfoldable pub whole_or : List GgufVariant → List GgufVariant → List GgufVariant
whole_or [] complete = complete
whole_or (v ∷ vs) complete = v ∷ vs

unfoldable pub only : List GgufVariant → Option GgufVariant
only (v ∷ []) = some v
only _ = none

-- None is the `GgufVariantSelectionError`.
unfoldable pub unique_gguf_representation : List GgufVariant → Option GgufVariant
unfolding is_whole whole_or only
unique_gguf_representation variants =
    let complete = keep (λ v. v.is_complete) variants in
    only (whole_or (keep is_whole complete) complete)

-- The distinct quantizations, sorted.
unfoldable pub insert_name : List ℕ → List (List ℕ) → List (List ℕ)
unfolding codes_before
insert_name name [] = name ∷ []
insert_name name (other ∷ names) =
    let rest = insert_name name names in
    if codes_before other name
    then other ∷ rest
    else if same_codes other name
    then other ∷ names
    else name ∷ other ∷ names

unfoldable pub quantization_names : List GgufVariant → List (List ℕ)
unfolding insert_name
quantization_names [] = []
quantization_names (v ∷ variants) = insert_name (codes v.quantization) (quantization_names variants)

unfoldable pub preferred_gguf_variants : List GgufVariant → List GgufVariant
unfolding quantization_names unique_gguf_representation
preferred_gguf_variants variants =
    choose
      (λ name.
        unique_gguf_representation (keep (λ v. same_codes (codes v.quantization) name) variants))
      (quantization_names variants)

-- `a.lower() == b.lower()`, and `a.upper() == b.upper()`, which agree on ASCII.
abbrev pub same_lowered : String → String → Bool
same_lowered a b = same_codes (map lower_code (codes a)) (map lower_code (codes b))

unfoldable pub or_refuse : Option GgufVariant → Selected
or_refuse none = Selected.refused SelectionError.no_unambiguous_variant
or_refuse (some v) = Selected.variant v

-- What is matched by name; no match is the `QuantizationNotFoundError`.
unfoldable pub resolve_matching : List GgufVariant → Selected
unfolding or_refuse unique_gguf_representation
resolve_matching [] = Selected.refused SelectionError.quantization_not_found
resolve_matching (v ∷ matching) = or_refuse (unique_gguf_representation (v ∷ matching))

-- The variant of a quantization that is asked for.
unfoldable pub select_named : List GgufVariant → String → Selected
unfolding resolve_matching
select_named variants name =
    resolve_matching (keep (λ v. same_lowered v.quantization name) variants)

-- The sort key (unknown size last, then size, then name).
unfoldable pub smaller_variant : GgufVariant → GgufVariant → Bool
unfolding codes_before
smaller_variant a b =
    (is_some a.total_bytes && not (is_some b.total_bytes))
    || (not (is_some b.total_bytes && not (is_some a.total_bytes))
        && (ltb (or_number a.total_bytes 0) (or_number b.total_bytes 0)
            || ((or_number a.total_bytes 0 == or_number b.total_bytes 0)
                && codes_before (codes a.quantization) (codes b.quantization))))

unfoldable pub insert_variant : GgufVariant → List GgufVariant → List GgufVariant
unfolding smaller_variant
insert_variant v [] = v ∷ []
insert_variant v (other ∷ others) =
    if smaller_variant other v then other ∷ insert_variant v others else v ∷ other ∷ others

unfoldable pub sort_variants : List GgufVariant → List GgufVariant
unfolding insert_variant
sort_variants [] = []
sort_variants (v ∷ vs) = insert_variant v (sort_variants vs)

-- `ordered[index]`
unfoldable pub get_elem? : List GgufVariant → ℕ → Option GgufVariant
get_elem? [] index = none
get_elem? (v ∷ vs) index = if index == 0 then some v else get_elem? vs (index - 1)

unfoldable pub select_median : List GgufVariant → Selected
unfolding preferred_gguf_variants sort_variants get_elem? or_refuse
select_median variants =
    let ordered = sort_variants (preferred_gguf_variants variants) in
    or_refuse (get_elem? ordered (length ordered / 2))

unfoldable pub is_empty_text : String → Bool
is_empty_text name = length (codes name) == 0

unfoldable pub select_default : List GgufVariant → Selected
unfolding select_named select_median
select_default variants =
    if any (λ v. same_lowered v.quantization "Q4_K_M") variants
    then select_named variants "Q4_K_M"
    else select_median variants

unfoldable pub select_variant : List GgufVariant → Option String → Selected
unfolding select_named select_default is_empty_text
select_variant [] requested = Selected.refused SelectionError.quantization_not_found
select_variant (v ∷ variants) none = select_default (v ∷ variants)
select_variant (v ∷ variants) (some name) =
    if is_empty_text name then select_default (v ∷ variants) else select_named (v ∷ variants) name
