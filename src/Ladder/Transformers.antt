-- ===== src/Ladder/Transformers.antt =====
-- The precision ladder of Transformers repositories: `_select_transformers`. Whether the weights are
-- packed in a quantized format is read from the quantization configuration, and is given.
use jaull.Base.{
  ℕ, String, Bool, true, false, not, ◌&&◌, Option, none, some, List, [], ◌∷◌, keep, codes,
  same_codes, prepend, if◌then◌else◌,
}
use jaull.Hardware.{HardwareProfile}
use jaull.Inference.{WeightPrecision, same_precision}
use jaull.Runtime.{quantized_transformers_supported}
use jaull.Ladder.{
  UserRequirements, EstimateFn, Tried, tried_status, build_config, on_cpu, is_acceptable,
  fallback_option, lower_theoretical_confidence,
}

-- The text without the prefix.
without_prefix : List ℕ → List ℕ → List ℕ → List ℕ
without_prefix [] rest text = rest
without_prefix (p ∷ prefix) [] text = text
without_prefix (p ∷ prefix) (c ∷ rest) text =
    let found = without_prefix prefix rest text in
    if same_codes (p ∷ []) (c ∷ []) then found else text

-- `declared.removeprefix("torch.")`
remove_torch : String → List ℕ
unfolding without_prefix
remove_torch declared = without_prefix (codes "torch.") (codes declared) (codes declared)

unfoldable pub native_precision : Option String → Option WeightPrecision
unfolding remove_torch
native_precision none = none
native_precision (some declared) =
    let name = remove_torch declared in
    if same_codes name (codes "float32")
    then some WeightPrecision.float32
    else if same_codes name (codes "float16")
    then some WeightPrecision.float16
    else if same_codes name (codes "bfloat16")
    then some WeightPrecision.bfloat16
    else none

-- `tuple(dict.fromkeys(values))`
unfoldable pub without_repeats : List WeightPrecision → List WeightPrecision
without_repeats [] = []
without_repeats (p ∷ ps) = p ∷ keep (λ q. not (same_precision p q)) (without_repeats ps)

abbrev transformers_dtype_ladder : List WeightPrecision
transformers_dtype_ladder =
    WeightPrecision.float16 ∷ WeightPrecision.int8 ∷ WeightPrecision.int4 ∷ []

abbrev first_only : List WeightPrecision → List WeightPrecision
first_only [] = []
first_only (p ∷ _) = p ∷ []

unfoldable pub transformers_precision_options : Option String → Bool → List WeightPrecision
unfolding native_precision without_repeats
transformers_precision_options torch_dtype packed =
    let ladder =
      without_repeats (prepend (native_precision torch_dtype) transformers_dtype_ladder) in
    if packed then first_only ladder else ladder

-- `precision in THEORETICAL_DTYPES`
abbrev pub is_theoretical_dtype : WeightPrecision → Bool
is_theoretical_dtype WeightPrecision.int8 = true
is_theoretical_dtype WeightPrecision.int4 = true
is_theoretical_dtype _ = false

-- `hardware is not None and not quantized_transformers_supported(hardware)`
unfoldable pub is_limited : Option HardwareProfile → Bool
unfolding quantized_transformers_supported
is_limited none = false
is_limited (some hardware) = not (quantized_transformers_supported hardware)

unfoldable pub try_precision : EstimateFn → UserRequirements → Bool → WeightPrecision → Tried
unfolding build_config on_cpu
try_precision estimate_fn requirements limited precision =
    let plain = build_config requirements none (some precision) in
    let cfg = if limited then on_cpu plain else plain in
    record { configuration = cfg; estimate = estimate_fn cfg }

-- A theoretical precision that is chosen loses a rung of confidence.
unfoldable pub settle : WeightPrecision → Tried → Tried
unfolding lower_theoretical_confidence
settle precision tried =
    if is_theoretical_dtype precision
    then record {
      configuration = tried.configuration;
      estimate = lower_theoretical_confidence tried.estimate;
    }
    else tried

-- The choice of the loop, or none, with what was tried.
pub record Descent : Type 0 where
  pub chosen : Option Tried
  pub options : List Tried

unfoldable pub descend :
    (WeightPrecision → Tried) → (packed limited : Bool) → List WeightPrecision → Descent
unfolding is_acceptable settle
descend try packed limited [] = record { chosen = none; options = [] }
descend try packed limited (precision ∷ precisions) =
    let rest = descend try packed limited precisions in
    let tried = try precision in
    if is_theoretical_dtype precision && limited
    then rest
    else if packed && limited
    then record { chosen = some tried; options = tried ∷ [] }
    else if is_acceptable (tried_status tried)
    then record { chosen = some (settle precision tried); options = tried ∷ [] }
    else record { chosen = rest.chosen; options = tried ∷ rest.options }

unfoldable pub choose_transformers : Descent → Option Tried
unfolding fallback_option
choose_transformers descent = elim descent.chosen [
  | some tried ↦ some tried
  | none ↦ fallback_option descent.options
]

unfoldable pub select_transformers :
    EstimateFn → UserRequirements → Option HardwareProfile → Option String → Bool → Option Tried
unfolding descend choose_transformers transformers_precision_options is_limited try_precision
select_transformers estimate_fn requirements hardware torch_dtype packed = choose_transformers (
    descend (try_precision estimate_fn requirements (is_limited hardware)) packed
      (is_limited hardware) (transformers_precision_options torch_dtype packed))
