-- ===== src/Tests/Variants.antt =====
-- Runs of the choice of a GGUF variant.
use jaull.Base.{ℕ, ◌≡◌, String, refl, true, false, none, some, List, [], ◌∷◌}
use jaull.Model.{GgufVariant}
use jaull.Variants.{Selected, SelectionError, select_variant}
use jaull.Variants.Complete.{IsComplete, select_variant-IsComplete}

abbrev one_file : String → ℕ → GgufVariant
one_file quantization size = record {
  quantization = quantization;
  files = record { path = quantization; size_bytes = some size } ∷ [];
  total_bytes = some size;
  is_complete = true;
  is_split = false;
}

abbrev missing_shard : GgufVariant
missing_shard = record {
  quantization = "Q8_0";
  files = record { path = "a-00001-of-00002.gguf"; size_bytes = some 7 } ∷ [];
  total_bytes = some 7;
  is_complete = false;
  is_split = true;
}

abbrev variants : List GgufVariant
variants = one_file "Q6_K" 6 ∷ missing_shard ∷ one_file "Q3_K_M" 3 ∷ one_file "Q5_K_M" 5 ∷ []

-- The median of the three complete ones.
median_selected : select_variant variants none ≡ Selected.variant (one_file "Q5_K_M" 5)
unfolding select_variant
median_selected = refl

default_selected :
    select_variant (one_file "q4_k_m" 4 ∷ variants) none ≡ Selected.variant (one_file "q4_k_m" 4)
unfolding select_variant
default_selected = refl

incomplete_refused :
    select_variant variants (some "q8_0") ≡ Selected.refused SelectionError.no_unambiguous_variant
unfolding select_variant
incomplete_refused = refl

absent_refused :
    select_variant variants (some "F16") ≡ Selected.refused SelectionError.quantization_not_found
unfolding select_variant
absent_refused = refl

select_variant-IsComplete_example : IsComplete variants (one_file "Q5_K_M" 5)
select_variant-IsComplete_example = select_variant-IsComplete variants none median_selected
